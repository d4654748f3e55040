-- ===== src/Trips/Steps.antt =====
-- The single steps of a task's way between clusters.
use sim_tools.Base.{
  ℕ, ◌<◌, ◌^◌, ◌≡◌, refl, sym, subst, ◌≢◌, true, false, ◌==◌, List, [], ◌∷◌, ◌++◌, length,
  Bool-cases, inl, inr, arith,
}
use sim_tools.Base.Bytes.{Bytes, bytes_eq, bytes_eq_iff}
use sim_tools.Base.Outcome.{Outcome, done}
use sim_tools.Core.Types.{task_reply_rejected}
use sim_tools.Core.Text.{string_to_zmq_msg}
use sim_tools.Core.Wire.{zero_reply}
use sim_tools.Core.Envelope.{Envelope, Encodes, turned}
use sim_tools.Cluster.Broker.{
  Broker, is_alive, is_submit, route_local_request, route_local_reply, route_cloud,
}
use sim_tools.Cluster.Balancer.{
  client, worker, super_broker, request, reply, from_cloud, foreign_request,
}
use sim_tools.Cluster.Routing.{IsBroker, Performs}
use sim_tools.Cluster.Refinement.{
  route_local_request-Performs, route_local_reply-Performs, route_cloud-Performs,
}
use sim_tools.Super.Selection.{find_proper}
use sim_tools.Super.Broker.{SuperBroker, is_empty, task_router}
use sim_tools.Super.Router.{parcel, assign, route, IsClusterMap}
use sim_tools.Super.Refinement.{Routes, task_router-Routes}
use sim_tools.Trips.Inversion.{Delivers, Performs-Delivers}

module _ (b : Broker) (ok : IsBroker b) (e : Envelope) (f p : Bytes) (enc : Encodes f e) where
  -- With no ready worker a request goes to the super broker.
  pub request_to_super :
      (id : Bytes) (rest : List Bytes)
      → b.work_ready_queue ≡ []
      → b.front_end_input ≡ id ∷ f ∷ p ∷ rest
      → Delivers
          (route_local_request b)
          (record b { front_end_input = rest })
          []
          super_broker
          (record e { from_cluster = b.cluster_name })
          p
  unfolding request
  request_to_super id rest h sent = Performs-Delivers _ _ _ _ _ _ (
      subst
        (λ (q : List Bytes).
          Performs (route_local_request b) (record b { front_end_input = rest })
            (request b.cluster_name q e p))
        h (route_local_request-Performs b ok e f p enc id rest sent))

  -- The answer to another cluster's task goes to the super broker.
  pub reply_to_super :
      (id : Bytes) (rest : List Bytes)
      → is_alive e.kind ≡ false
      → e.from_cluster ≢ b.cluster_name
      → b.back_end_input ≡ id ∷ f ∷ p ∷ rest
      → Delivers
          (route_local_reply b)
          (record b { back_end_input = rest })
          (b.work_ready_queue ++ e.from ∷ [])
          super_broker
          (record e { to_cluster = e.from_cluster; from_cluster = b.cluster_name })
          p
  unfolding reply
  reply_to_super id rest task other sent = Performs-Delivers _ _ _ _ _ _ (
      let foreign : bytes_eq b.cluster_name e.from_cluster ≡ false =
        elim (Bool-cases (bytes_eq b.cluster_name e.from_cluster)) [
          | inl same ↦ absurd (other (sym ((bytes_eq_iff _ _).0 same)))
          | inr differs ↦ differs
        ] in
      rw (task, foreign) at (route_local_reply-Performs b ok e f p enc id rest sent))

  module _ (rest : List Bytes) (sent : b.cloud_task_input ≡ f ∷ p ∷ rest) where
    -- A request of another cluster goes to the worker that has waited longest, as it came.
    pub foreign_to_worker :
        (w : Bytes) (ws : List Bytes)
        → b.work_ready_queue ≡ w ∷ ws
        → length (w ∷ ws) < 2 ^ 32
        → is_submit e.direction ≡ true
        → Delivers (route_cloud b) (record b { cloud_task_input = rest }) ws (worker w) e p
    unfolding from_cloud foreign_request
    foreign_to_worker w ws h fits submitted = Performs-Delivers _ _ _ _ _ _ (
        rw submitted at (
          subst
            (λ (q : List Bytes).
              Performs (route_cloud b) (record b { cloud_task_input = rest }) (from_cloud q e p))
            h
            (route_cloud-Performs b ok e f p enc rest sent
              (subst (λ (q : List Bytes). length q < 2 ^ 32) (sym h) fits))))

    -- What the super broker sends back goes to the client.
    pub cloud_to_client :
        length b.work_ready_queue < 2 ^ 32
        → is_submit e.direction ≡ false
        → Delivers
            (route_cloud b)
            (record b { cloud_task_input = rest })
            b.work_ready_queue
            (client e.to)
            e
            p
    unfolding from_cloud
    cloud_to_client fits replied =
        Performs-Delivers _ _ _ _ _ _
          (rw replied at (route_cloud-Performs b ok e f p enc rest sent fits))

-- The super broker's one message, with the frame of its metadata.
pub record Forwards (r : Outcome SuperBroker) (s : SuperBroker) (cluster : Bytes) (e : Envelope)
    (p : Bytes) : Type 0 where
  pub frame : Bytes
  pub returns :
      r ≡ done (record s { log = s.log ++ (string_to_zmq_msg cluster ∷ frame ∷ p ∷ []) ∷ [] })
  pub encodes : Encodes frame e

Routes-Forwards :
    (r : Outcome SuperBroker) (s : SuperBroker) (cluster : Bytes) (e : Envelope) (p : Bytes)
    → Routes r s (parcel cluster e p)
    → Forwards r s cluster e p
Routes-Forwards r s cluster e p ([], _, c) = elim c [ ]
Routes-Forwards r s cluster e p (frames ∷ [], h, c) = record {
  frame = c.0.0;
  returns = subst (λ (x : List Bytes). r ≡ done (record s { log = s.log ++ x ∷ [] })) c.0.1 h;
  encodes = c.0.2;
}
Routes-Forwards r s cluster e p (frames ∷ more ∷ rest, _, c) = elim c.1 [ ]

is_empty-false : (s : Bytes) → s ≢ [] → is_empty s ≡ false
is_empty-false [] h = absurd (h refl)
is_empty-false (c ∷ cs) h = refl

module _ (s : SuperBroker) (ok : IsClusterMap s.cluster_info_map) (e : Envelope) (id f p : Bytes)
    (enc : Encodes f e) (rest : List Bytes) (sent : s.cloud_task_input ≡ id ∷ f ∷ p ∷ rest)
    (task : is_alive e.kind ≡ false) where
  -- A reply goes to the cluster that it names.
  pub super_reply :
      is_submit e.direction ≡ false
      → Forwards (task_router s) (record s { cloud_task_input = rest }) e.to_cluster e p
  unfolding route
  super_reply replied =
      Routes-Forwards _ _ _ _ _
        (rw (task, replied) at (task_router-Routes s e id f p rest ok enc sent))

  module _ (submitted : is_submit e.direction ≡ true) (named : e.from ≢ [])
      (placed : e.from_cluster ≢ []) where
    -- A request goes to the cluster that is found.
    pub super_request :
        (target : Bytes) (n : ℕ)
        → find_proper [] 0 s.cluster_info_map ≡ (target, n)
        → 0 < n
        → target ≢ []
        → Forwards
            (task_router s)
            (record s { cloud_task_input = rest })
            target
            (record e { to_cluster = target })
            p
    unfolding route assign
    super_request target n found some_ready is_named =
        let some_count : (n == 0) ≡ false = ground arith in
        Routes-Forwards _ _ _ _ _ (
          rw
            (
              task,
              submitted,
              is_empty-false e.from named,
              is_empty-false e.from_cluster placed,
              found,
              some_count,
              is_empty-false target is_named,
            )
            at (task_router-Routes s e id f p rest ok enc sent))

    -- While no cluster has a ready worker a request goes back, rejected.
    pub super_reject :
        (target : Bytes)
        → find_proper [] 0 s.cluster_info_map ≡ (target, 0)
        → Forwards
            (task_router s)
            (record s { cloud_task_input = rest })
            e.from_cluster
            (record (turned e) { direction = task_reply_rejected })
            zero_reply
    unfolding route assign
    super_reject target found = Routes-Forwards _ _ _ _ _ (
        rw
          (
            task,
            submitted,
            is_empty-false e.from named,
            is_empty-false e.from_cluster placed,
            found,
          )
          at (task_router-Routes s e id f p rest ok enc sent))
