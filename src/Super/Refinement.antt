-- ===== src/Super/Refinement.antt =====
-- SuperBroker's handlers against what Router promises.
use sim_tools.Base.{
  ℕ, ◌≡◌, refl, sym, subst, append-nil, ◌||◌, List, [], ◌∷◌, ◌++◌, if◌then◌else◌, ◌==◌, All,
  Bool-cases, inl, inr, arith, some,
}
use sim_tools.Base.Bytes.{Bytes, bytes_eq}
use sim_tools.Base.Outcome.{Outcome, done}
use sim_tools.Core.Types.{
  TaskMeta, ClusterStateInfo, IsStateInfo, task_reply_rejected, direction_code,
}
use sim_tools.Core.Names.{IsName, c_string-IsName}
use sim_tools.Core.Text.{string_to_zmq_msg, c_string}
use sim_tools.Core.Wire.{encode_state_info, zero_reply}
use sim_tools.Core.Layout.{load_state_info-encode}
use sim_tools.Core.Envelope.{
  Envelope, Represents, Encodes, Represents-AreNames, turned, direct, put_to_cluster_id-Yields,
  swap_addr-Yields, load_meta-Yields, store_meta-Encodes,
}
use sim_tools.Cluster.Broker.{is_alive, is_submit}
use sim_tools.Super.ClusterMap.{ClusterMap, insert, lookup, insert-IsOrdered, lookup-insert}
use sim_tools.Super.Selection.{find_proper, FirstWith, at_head, further, find_proper-Found}
use sim_tools.Super.Broker.{
  SuperBroker, is_empty, state_puller, route_to, reject, route_found, route_named, route_request,
  route_reply, task_router,
}
use sim_tools.Super.Router.{Parcel, parcel, assign, route, CarriesParcels, IsClusterMap}

insert-names :
    (key : Bytes) (info : ClusterStateInfo) (m : ClusterMap)
    → IsName key
    → All (λ entry. IsName entry.0) m
    → All (λ entry. IsName entry.0) (insert key info m)
unfolding insert
insert-names key info [] n h = (n, tt)
insert-names key info ((k, i) ∷ m) n h = ground (arith, insert-names key info m)

-- A cluster's report, under a name that is read out of its buffer: statePuller takes the frame and
-- changes only the map, in which a lookup of the name finds this report from then on, and a lookup of
-- any other name what it found before; and the map stays ordered, with names that fit their buffers.
pub state_puller-lookup :
    (s : SuperBroker) (info : ClusterStateInfo) (name : Bytes) (rest : List Bytes)
    → IsStateInfo info
    → c_string info.cluster_name ≡ done name
    → IsClusterMap s.cluster_info_map
    → s.pull_input ≡ encode_state_info info ∷ rest
    → (m : ClusterMap) × (state_puller s
        ≡ done (record s { pull_input = rest; cluster_info_map = m }))
      × IsClusterMap m
      × ((k : Bytes)
          → lookup k m ≡ (if bytes_eq name k then some info else lookup k s.cluster_info_map))
unfolding state_puller
state_puller-lookup s info name rest ok read m h = (
  insert name info s.cluster_info_map,
  rw (h, load_state_info-encode info ok, read),
  record {
    names =
        insert-names name info s.cluster_info_map (c_string-IsName _ name ok.name_ok read) m.names;
    ordered = insert-IsOrdered name info s.cluster_info_map m.ordered;
  },
  λ k. lookup-insert name k info s.cluster_info_map,
)

FirstWith-IsName :
    {name : Bytes} {n : ℕ} {m : ClusterMap}
    → FirstWith name n m
    → All (λ entry. IsName entry.0) m
    → IsName name
FirstWith-IsName (at_head e) h = h.0
FirstWith-IsName (further l f) h = FirstWith-IsName f h.1

-- The cluster that is found has a name that fits its buffer.
find_proper-IsName :
    (m : ClusterMap) → All (λ entry. IsName entry.0) m → IsName (find_proper [] 0 m).0
find_proper-IsName m h = elim (find_proper-Found [] 0 m) [
  | inl e ↦
      subst (λ (r : Bytes × ℕ). IsName r.0) (sym e) (record { chars = tt; fits = omega arith })
  | inr (_, first) ↦ FirstWith-IsName first h
]

-- From s a handler comes to a super broker that has sent the given parcels, and is otherwise s.
abbrev pub Routes : Outcome SuperBroker → SuperBroker → List Parcel → Type 0
Routes r s parcels =
    (frames : List (List Bytes)) × (r ≡ done (record s { log = s.log ++ frames }))
    × CarriesParcels frames parcels

module _ (s : SuperBroker) (m : TaskMeta) (e : Envelope) (f p : Bytes) (r : Represents m e)
    (enc : Encodes f e) where
  route_to-Routes :
      (target : Bytes)
      → IsName target
      → Routes (route_to s m f p target) s (parcel target (record e { to_cluster = target }) p)
  unfolding route_to
  route_to-Routes target n =
      let (m1, p1, r1) = put_to_cluster_id-Yields m e target r n in
      let (g, q, c) = store_meta-Encodes m1 _ e f r1 enc in
      ((string_to_zmq_msg target ∷ g ∷ p ∷ []) ∷ [], rw (p1, q), ((g, refl, c), tt))

  reject-Routes :
      Routes
        (reject s m f)
        s
        (parcel e.from_cluster (record (turned e) { direction = task_reply_rejected }) zero_reply)
  unfolding reject direction_code
  reject-Routes =
      let (m1, p1, r1) = swap_addr-Yields m e r in
      let r2 = direct m1 (turned e) task_reply_rejected r1 (omega arith) in
      let (g, q, c) = store_meta-Encodes _ _ e f r2 enc in
      (
        (string_to_zmq_msg e.from_cluster ∷ g ∷ zero_reply ∷ []) ∷ [],
        rw (p1, r1.to_cluster_read, q),
        ((g, refl, c), tt),
      )

  route_found-Routes :
      (target : Bytes) (count : ℕ)
      → IsName target
      → Routes (route_found s m f p (target, count)) s (assign (target, count) e p)
  unfolding route_found assign
  route_found-Routes target count n = elim (Bool-cases (count == 0 || is_empty target)) [
    | inl none_found ↦ rw none_found reject-Routes
    | inr found ↦ rw found (route_to-Routes target n)
  ]

  route_request-Routes :
      IsClusterMap s.cluster_info_map
      → Routes (route_request s m f p) s (
          if is_empty e.from
          then []
          else (if is_empty e.from_cluster
              then []
              else assign (find_proper [] 0 s.cluster_info_map) e p))
  unfolding route_request route_named
  route_request-Routes ok =
      let found = find_proper [] 0 s.cluster_info_map in
      let dropped : Routes (done s) s [] = ([], rw (append-nil s.log), tt) in
      rw (r.from_read) (elim (Bool-cases (is_empty e.from)) [
        | inl none_sent ↦ rw none_sent dropped
        | inr named ↦
            rw (named, r.from_cluster_read)
              (elim (Bool-cases (is_empty e.from_cluster)) [
                | inl none_sent ↦ rw none_sent dropped
                | inr from_cluster ↦ rw from_cluster (
                    route_found-Routes found.0 found.1
                      (find_proper-IsName s.cluster_info_map ok.names))
              ])
      ])

  route_reply-Routes : Routes (route_reply s m f p) s (parcel e.to_cluster e p)
  unfolding route_reply
  route_reply-Routes =
      rw (r.to_cluster_read)
        (route_to-Routes e.to_cluster (Represents-AreNames m e r).to_cluster_name)

-- A message that encodes an envelope is routed as promised, and only its frames are consumed.
pub task_router-Routes :
    (s : SuperBroker) (e : Envelope) (id f p : Bytes) (rest : List Bytes)
    → IsClusterMap s.cluster_info_map
    → Encodes f e
    → s.cloud_task_input ≡ id ∷ f ∷ p ∷ rest
    → Routes (task_router s) (record s { cloud_task_input = rest }) (route s.cluster_info_map e p)
unfolding task_router route
task_router-Routes s e id f p rest ok enc h =
    let (m, l, r) = load_meta-Yields f e enc in
    let received = record s { cloud_task_input = rest } in
    rw (h, l, r.kind_eq, r.direction_eq)
      (elim (Bool-cases (is_alive e.kind)) [
        | inl alive ↦ rw alive ([], rw (append-nil s.log), tt)
        | inr task ↦ rw task (elim (Bool-cases (is_submit e.direction)) [
          | inl submitted ↦ rw submitted (route_request-Routes received m e f p r enc ok)
          | inr replied ↦ rw replied (route_reply-Routes received m e f p r enc)
        ])
      ])
