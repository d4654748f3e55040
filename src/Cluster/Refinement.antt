-- ===== src/Cluster/Refinement.antt =====
-- The three handlers of LocalBalanceBroker as a whole: on a message that encodes an envelope each
-- one succeeds and does what Balancer promises.
use sim_tools.Base.{
  ◌^◌, ◌<◌, ◌≡◌, refl, sym, subst, true, false, List, [], ◌∷◌, ◌++◌, All-append, if◌then◌else◌,
  length, ltb, arith, lt→ltb, Bool-cases, inl, inr,
}
use sim_tools.Base.Bytes.{Bytes, bytes_eq}
use sim_tools.Core.Types.{TaskMeta}
use sim_tools.Core.Names.{IsName}
use sim_tools.Core.Envelope.{
  Envelope, Represents, Encodes, Represents-AreNames, put_from_cluster_id-Yields,
  put_to_cluster_id-Yields, load_meta-Yields, store_meta-Encodes,
}
use sim_tools.Cluster.Broker.{
  Broker, u32_size, set_queue, is_alive, is_submit, cloud_submit, cloud_accept, route_cloud,
  route_local_request, forward_reply, route_local_reply,
}
use sim_tools.Cluster.Balancer.{
  client, super_broker, deliver, request, reply, foreign_request, from_cloud, to_super_broker,
}
use sim_tools.Cluster.Routing.{
  IsBroker, Performs, Performs-later, Performs-ready, Performs-send, forward_request-Performs,
  cloud_accept-Performs, cloud_reject-Performs, cloud_reply-Performs, reply_local-Performs,
}

module _ (b : Broker) (ok : IsBroker b) (e : Envelope) (f p : Bytes) (enc : Encodes f e) where
  -- A client's request goes to the worker that has waited longest, else to the super broker.
  pub route_local_request-Performs :
      (id : Bytes) (rest : List Bytes)
      → b.front_end_input ≡ id ∷ f ∷ p ∷ rest
      → Performs
          (route_local_request b)
          (record b { front_end_input = rest })
          (request b.cluster_name b.work_ready_queue e p)
  unfolding route_local_request
  route_local_request-Performs id rest h =
      let (m, l, r) = load_meta-Yields f e enc in
      let (m1, p1, r1) = put_from_cluster_id-Yields m e b.cluster_name r ok.name_ok in
      let ready : IsBroker (record b { front_end_input = rest }) = record {
        name_ok = ok.name_ok;
        workers_ok = ok.workers_ok;
        count_ok = ok.count_ok;
      } in
      rw (h, l, p1) (forward_request-Performs _ ready m1 e e f p b.work_ready_queue r1 enc refl)

module _ (b : Broker) (ok : IsBroker b) (e : Envelope) (f p : Bytes) (enc : Encodes f e) where
  cloud_submit-Performs :
      (m : TaskMeta) (q : List Bytes)
      → Represents m e
      → b.work_ready_queue ≡ q
      → length q < 2 ^ 32
      → Performs (cloud_submit b m f p) b (foreign_request q e p)
  unfolding cloud_submit
  cloud_submit-Performs m [] r h fits =
      let none_ready : ltb 0 (u32_size b.work_ready_queue) ≡ false = rw h in
      let ready : IsBroker (set_queue b b.work_ready_queue) = record {
        name_ok = ok.name_ok;
        workers_ok = ok.workers_ok;
        count_ok = refl;
      } in
      rw none_ready (
        Performs-later _ b b.work_ready_queue _
          (cloud_reject-Performs (set_queue b b.work_ready_queue) ready m e e f p r enc h))
  cloud_submit-Performs m (w ∷ ws) r h fits =
      let one_ready : ltb 0 (u32_size b.work_ready_queue) ≡ true =
        lt→ltb 0 _ (rw h (omega arith)) in
      let ready : IsBroker (set_queue b b.work_ready_queue) = record {
        name_ok = ok.name_ok;
        workers_ok = ok.workers_ok;
        count_ok = refl;
      } in
      rw one_ready (
        Performs-later _ b b.work_ready_queue _ (
          subst
            (λ q.
              Performs (cloud_accept (set_queue b b.work_ready_queue) m f p q)
                (set_queue b b.work_ready_queue) (foreign_request (w ∷ ws) e p))
            (sym h)
            (cloud_accept-Performs (set_queue b b.work_ready_queue) ready m e e f p w ws r enc h)))

module _ (b : Broker) (ok : IsBroker b) (e : Envelope) (f p : Bytes) (enc : Encodes f e) where
  -- A request from the super broker goes on to a ready worker as it came, and is rejected if there
  -- is none; a reply goes to the client that it names.
  pub route_cloud-Performs :
      (rest : List Bytes)
      → b.cloud_task_input ≡ f ∷ p ∷ rest
      → length b.work_ready_queue < 2 ^ 32
      → Performs
          (route_cloud b)
          (record b { cloud_task_input = rest })
          (from_cloud b.work_ready_queue e p)
  unfolding route_cloud from_cloud
  route_cloud-Performs rest h fits =
      let (m, l, r) = load_meta-Yields f e enc in
      let ready : IsBroker (record b { cloud_task_input = rest }) = record {
        name_ok = ok.name_ok;
        workers_ok = ok.workers_ok;
        count_ok = ok.count_ok;
      } in
      let received = record b { cloud_task_input = rest } in
      rw (h, l, r.direction_eq)
        (elim (Bool-cases (is_submit e.direction)) [
          | inl submitted ↦
              rw submitted
                (cloud_submit-Performs received ready e f p enc m b.work_ready_queue r refl fits)
          | inr replied ↦
              rw replied
                (cloud_reply-Performs received ready m e e f p b.work_ready_queue r enc refl)
        ])

module _ (b : Broker) (ok : IsBroker b) (m : TaskMeta) (e : Envelope) (f p : Bytes) where
  forward_reply-Performs :
      (q : List Bytes)
      → Represents m e
      → Encodes f e
      → b.work_ready_queue ≡ q
      → Performs (forward_reply b m f p) b (
        q,
        deliver
            (if bytes_eq b.cluster_name e.from_cluster then client e.to else super_broker)
            (record e { to_cluster = e.from_cluster; from_cluster = b.cluster_name })
            p,
      )
  unfolding forward_reply
  forward_reply-Performs q r enc h =
      let answer = record e { to_cluster = e.from_cluster; from_cluster = b.cluster_name } in
      let names = Represents-AreNames m e r in
      let (m1, p1, r1) = put_to_cluster_id-Yields m e e.from_cluster r names.from_cluster_name in
      let (m2, p2, r2) = put_from_cluster_id-Yields m1 _ b.cluster_name r1 ok.name_ok in
      let (g, s, n) = store_meta-Encodes m2 _ e f r2 enc in
      rw (r.from_cluster_read, p1, p2, s, r2.to_cluster_read)
        (elim (Bool-cases (bytes_eq b.cluster_name e.from_cluster)) [
          | inl local ↦ rw local (reply_local-Performs b ok m2 answer e g p q r2 n h)
          | inr foreign ↦ rw foreign (Performs-send b ok _ _ _ q h refl (to_super_broker n))
        ])

module _ (b : Broker) (ok : IsBroker b) (e : Envelope) (f p : Bytes) (enc : Encodes f e) where
  -- A worker's message makes it the last ready worker; an alive signal goes no further, and an
  -- answer goes to the client, directly or through the super broker.
  pub route_local_reply-Performs :
      (id : Bytes) (rest : List Bytes)
      → b.back_end_input ≡ id ∷ f ∷ p ∷ rest
      → Performs
          (route_local_reply b)
          (record b { back_end_input = rest })
          (reply b.cluster_name b.work_ready_queue e p)
  unfolding route_local_reply reply
  route_local_reply-Performs id rest h =
      let (m, l, r) = load_meta-Yields f e enc in
      let names = Represents-AreNames m e r in
      let q = b.work_ready_queue ++ e.from ∷ [] in
      let received = record b { back_end_input = rest } in
      let ready : IsBroker (set_queue received q) = record {
        name_ok = ok.name_ok;
        workers_ok =
            All-append IsName b.work_ready_queue (e.from ∷ []) ok.workers_ok (names.from_name, tt);
        count_ok = refl;
      } in
      rw (h, l, r.from_read, r.kind_eq)
        (elim (Bool-cases (is_alive e.kind)) [
          | inl alive ↦ rw alive (Performs-ready received q ready)
          | inr task ↦ rw task (
              Performs-later _ received q _
                (forward_reply-Performs (set_queue received q) ready m e f p q r enc refl))
        ])
