-- ===== src/Cluster/Routing.antt =====
-- LocalBalanceBroker's handlers carry out what Balancer promises.
use sim_tools.Base.{◌≡◌, refl, sym, append-nil, subst, List, [], ◌∷◌, ◌++◌, All, arith}
use sim_tools.Base.Bytes.{Bytes}
use sim_tools.Base.Outcome.{Outcome, done}
use sim_tools.Core.Types.{TaskMeta, task_reply_rejected, direction_code}
use sim_tools.Core.Names.{IsName}
use sim_tools.Core.Envelope.{
  Envelope, Represents, Encodes, turned, direct, put_to_cluster_id-Yields, put_to_id-Yields,
  swap_addr-Yields, store_meta-Encodes,
}
use sim_tools.Cluster.Broker.{
  Broker, Sent, u32_size, send, set_queue, cloud_accept, cloud_reject, cloud_reply, forward_request,
  reply_local,
}
use sim_tools.Cluster.Balancer.{
  Delivery, client, deliver, request, foreign_request, Carries, to_client, to_worker,
  to_super_broker, CarriesAll,
}

-- The broker's own data: its names fit their buffers, and the counter is the queue's size.
pub record IsBroker (b : Broker) : Type 0 where
  pub name_ok : IsName b.cluster_name
  pub workers_ok : All IsName b.work_ready_queue
  pub count_ok : b.ready_worker_count ≡ u32_size b.work_ready_queue

-- From b a handler comes to a broker that has the promised queue, has sent the promised messages,
-- and is otherwise as b with the frames that it consumed taken off.
pub record Performs (r : Outcome Broker) (b : Broker) (promise : List Bytes × List Delivery)
    : Type 0 where
  pub after : Broker
  pub sent : List Sent
  pub returns : r ≡ done after
  pub queue : after.work_ready_queue ≡ promise.0
  pub messages : CarriesAll sent promise.1
  pub logged : after.log ≡ b.log ++ sent
  pub front_kept : after.front_end_input ≡ b.front_end_input
  pub back_kept : after.back_end_input ≡ b.back_end_input
  pub cloud_kept : after.cloud_task_input ≡ b.cloud_task_input
  pub name_kept : after.cluster_name ≡ b.cluster_name
  pub well_formed : IsBroker after

-- What a handler does after the queue was set, it does as a whole.
pub Performs-later :
    (r : Outcome Broker) (b : Broker) (q : List Bytes) (promise : List Bytes × List Delivery)
    → Performs r (set_queue b q) promise
    → Performs r b promise
Performs-later r b q promise h = record {
  after = h.after;
  sent = h.sent;
  returns = h.returns;
  queue = h.queue;
  messages = h.messages;
  logged = h.logged;
  front_kept = h.front_kept;
  back_kept = h.back_kept;
  cloud_kept = h.cloud_kept;
  name_kept = h.name_kept;
  well_formed = h.well_formed;
}

-- A handler that only sets the queue.
pub Performs-ready :
    (b : Broker) (q : List Bytes)
    → IsBroker (set_queue b q)
    → Performs (done (set_queue b q)) b (q, [])
Performs-ready b q ok = record {
  after = set_queue b q;
  sent = [];
  returns = refl;
  queue = refl;
  messages = tt;
  logged = sym (append-nil b.log);
  front_kept = refl;
  back_kept = refl;
  cloud_kept = refl;
  name_kept = refl;
  well_formed = ok;
}

module _ (b : Broker) (ok : IsBroker b) (r : Outcome Broker) (s : Sent) (d : Delivery) where
  -- A handler that sends one message and leaves the queue.
  pub Performs-send :
      (q : List Bytes)
      → b.work_ready_queue ≡ q
      → r ≡ done (send b s)
      → Carries s d
      → Performs r b (q, d ∷ [])
  Performs-send q h e c = record {
    after = send b s;
    sent = s ∷ [];
    returns = e;
    queue = h;
    messages = (c, tt);
    logged = refl;
    front_kept = refl;
    back_kept = refl;
    cloud_kept = refl;
    name_kept = refl;
    well_formed = record {
      name_ok = ok.name_ok;
      workers_ok = ok.workers_ok;
      count_ok = ok.count_ok;
    };
  }

  -- A handler that sends one message and sets the queue.
  pub Performs-set_queue :
      (q : List Bytes)
      → All IsName q
      → r ≡ done (send (set_queue b q) s)
      → Carries s d
      → Performs r b (q, d ∷ [])
  Performs-set_queue q names e c = record {
    after = send (set_queue b q) s;
    sent = s ∷ [];
    returns = e;
    queue = refl;
    messages = (c, tt);
    logged = refl;
    front_kept = refl;
    back_kept = refl;
    cloud_kept = refl;
    name_kept = refl;
    well_formed = record { name_ok = ok.name_ok; workers_ok = names; count_ok = refl };
  }

module _ (b : Broker) (ok : IsBroker b) (m : TaskMeta) (e e0 : Envelope) (f p : Bytes) where
  pub forward_request-Performs :
      (q : List Bytes)
      → Represents m (record e { from_cluster = b.cluster_name })
      → Encodes f e0
      → b.work_ready_queue ≡ q
      → Performs (forward_request b m f p q) b (request b.cluster_name q e p)
  unfolding forward_request request
  forward_request-Performs [] r enc h =
      let (g, s, n) = store_meta-Encodes m _ e0 f r enc in
      Performs-send b ok _ _ _ [] h (rw s) (to_super_broker n)
  forward_request-Performs (w ∷ ws) r enc h =
      let names : All IsName (w ∷ ws) = subst (All IsName) h ok.workers_ok in
      let (m1, p1, r1) = put_to_cluster_id-Yields m _ b.cluster_name r ok.name_ok in
      let (m2, p2, r2) = put_to_id-Yields m1 _ w r1 names.0 in
      let (g, s, n) = store_meta-Encodes m2 _ e0 f r2 enc in
      Performs-set_queue b ok _ _ _ ws names.1 (rw (p1, p2, s)) (to_worker n)

  pub cloud_accept-Performs :
      (w : Bytes) (ws : List Bytes)
      → Represents m e
      → Encodes f e
      → b.work_ready_queue ≡ w ∷ ws
      → Performs (cloud_accept b m f p (w ∷ ws)) b (foreign_request (w ∷ ws) e p)
  unfolding cloud_accept foreign_request
  cloud_accept-Performs w ws r enc h =
      let names : All IsName (w ∷ ws) = subst (All IsName) h ok.workers_ok in
      let (m1, p1, r1) = put_to_cluster_id-Yields m _ b.cluster_name r ok.name_ok in
      let (m2, p2, r2) = put_to_id-Yields m1 _ w r1 names.0 in
      Performs-set_queue b ok _ _ _ ws names.1 (rw (p1, p2)) (to_worker enc)

  pub cloud_reject-Performs :
      Represents m e
      → Encodes f e
      → b.work_ready_queue ≡ []
      → Performs (cloud_reject b m f) b (foreign_request [] e p)
  unfolding cloud_reject foreign_request direction_code
  cloud_reject-Performs r enc h =
      let (m1, p1, r1) = swap_addr-Yields m e r in
      let r2 = direct m1 (turned e) task_reply_rejected r1 (omega arith) in
      let (g, s, n) = store_meta-Encodes _ _ e f r2 enc in
      Performs-send b ok _ _ _ [] h (rw (p1, s, r1.to_cluster_read)) (to_super_broker n)

  pub cloud_reply-Performs :
      (q : List Bytes)
      → Represents m e
      → Encodes f e
      → b.work_ready_queue ≡ q
      → Performs (cloud_reply b m f p) b (q, deliver (client e.to) e p)
  unfolding cloud_reply
  cloud_reply-Performs q r enc h = Performs-send b ok _ _ _ q h (rw (r.to_read)) (to_client enc)

  pub reply_local-Performs :
      (q : List Bytes)
      → Represents m e
      → Encodes f e
      → b.work_ready_queue ≡ q
      → Performs (reply_local b m f p) b (q, deliver (client e.to) e p)
  unfolding reply_local
  reply_local-Performs q r enc h = Performs-send b ok _ _ _ q h (rw (r.to_read)) (to_client enc)
