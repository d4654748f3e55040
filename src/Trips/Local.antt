-- ===== src/Trips/Local.antt =====
-- A task that a worker of the client's own cluster does.
use sim_tools.Base.{ℕ, ◌≡◌, refl, sym, subst, ap, ◌∙◌, true, false, List, [], ◌∷◌, ◌++◌, length}
use sim_tools.Base.Bytes.{Bytes, bytes_eq, bytes_eq_iff}
use sim_tools.Base.Outcome.{done}
use sim_tools.Core.Names.{IsName}
use sim_tools.Core.Text.{string_to_zmq_msg}
use sim_tools.Core.Doubles.{Doubles, bytes_of, sum_from}
use sim_tools.Core.Envelope.{Envelope, Encodes}
use sim_tools.Cluster.Broker.{
  Broker, front_end, back_end, is_alive, route_local_request, route_local_reply,
}
use sim_tools.Cluster.Worker.{Worker, identity, process}
use sim_tools.Cluster.Client.{Client, answered, is_reply, receive_result}
use sim_tools.Cluster.Answers.{answer, process-answer, receive_result-eq}
use sim_tools.Cluster.Balancer.{client, worker, request, reply}
use sim_tools.Cluster.Routing.{IsBroker, Performs}
use sim_tools.Cluster.Refinement.{route_local_request-Performs, route_local_reply-Performs}
use sim_tools.Trips.Inversion.{Delivers, Performs-Delivers}

-- The steps of the trip of the task ds from the client c, through the broker b, to the worker w
-- and back. What a step receives are the frames that the step before it has sent.
pub record LocalTrip (D : Doubles) (b : Broker) (w : Worker) (c : Client) (task : ℕ)
    (ws : List Bytes) (ds : List D.Double) : Type 0 where
  pub b1 : Broker
  pub w1 : Worker
  pub b2 : Broker
  pub task_msg : Bytes
  pub answer_msg : Bytes
  pub reply_msg : Bytes
  pub requested : route_local_request b ≡ done b1
  pub to_worker : b1.log ≡ b.log ++ back_end (identity w.id ∷ task_msg ∷ bytes_of D ds ∷ []) ∷ []
  pub worked : process D (record w { input = task_msg ∷ bytes_of D ds ∷ [] }) ≡ done w1
  pub to_broker :
      w1.log ≡ w.log ++ (answer_msg ∷ D.to_bytes (sum_from D D.zero_double ds) ∷ []) ∷ []
  pub replied :
      route_local_reply (record b1 {
        back_end_input = identity w.id ∷ answer_msg ∷ D.to_bytes (sum_from D D.zero_double ds) ∷ [];
      })
      ≡ done b2
  pub to_client :
      b2.log
      ≡ b1.log
        ++ front_end (identity c.id ∷ reply_msg ∷ D.to_bytes (sum_from D D.zero_double ds) ∷ [])
          ∷ []
  pub waiting : b2.work_ready_queue ≡ ws ++ w.id ∷ []
  pub received :
      receive_result D
        (record c { input = reply_msg ∷ D.to_bytes (sum_from D D.zero_double ds) ∷ [] })
      ≡ done (record c { input = [] }, answered task (sum_from D D.zero_double ds))

pub string_to_zmq_msg-identity : (s : Bytes) → string_to_zmq_msg s ≡ identity s
unfolding string_to_zmq_msg identity
string_to_zmq_msg-identity s = refl

module _ (b : Broker) (ok : IsBroker b) (e : Envelope) (f p : Bytes) (enc : Encodes f e)
    (id : Bytes) (rest : List Bytes) where
  -- With a ready worker a request goes to it.
  pub request_to_worker :
      (w : Bytes) (ws : List Bytes)
      → b.work_ready_queue ≡ w ∷ ws
      → b.front_end_input ≡ id ∷ f ∷ p ∷ rest
      → Delivers
          (route_local_request b)
          (record b { front_end_input = rest })
          ws
          (worker w)
          (record e { from_cluster = b.cluster_name; to_cluster = b.cluster_name; to = w })
          p
  unfolding request
  request_to_worker w ws h sent = Performs-Delivers _ _ _ _ _ _ (
      subst
        (λ (q : List Bytes).
          Performs (route_local_request b) (record b { front_end_input = rest })
            (request b.cluster_name q e p))
        h (route_local_request-Performs b ok e f p enc id rest sent))

  -- The answer to a task from this cluster goes to the client.
  pub reply_to_client :
      is_alive e.kind ≡ false
      → e.from_cluster ≡ b.cluster_name
      → b.back_end_input ≡ id ∷ f ∷ p ∷ rest
      → Delivers
          (route_local_reply b)
          (record b { back_end_input = rest })
          (b.work_ready_queue ++ e.from ∷ [])
          (client e.to)
          (record e { to_cluster = e.from_cluster; from_cluster = b.cluster_name })
          p
  unfolding reply
  reply_to_client task here sent = Performs-Delivers _ _ _ _ _ _ (
      let own : bytes_eq b.cluster_name e.from_cluster ≡ true =
        (bytes_eq_iff b.cluster_name e.from_cluster).1 (sym here) in
      rw (task, own) at (route_local_reply-Performs b ok e f p enc id rest sent))

-- While a worker of its cluster is ready, a client gets the sum of its array, under the number of
-- its task, from the worker that has waited longest, and that worker is ready again.
pub local_trip :
    (D : Doubles) (b : Broker) (w : Worker) (c : Client) (e : Envelope) (f id : Bytes)
    (ws rest : List Bytes) (ds : List D.Double)
    → IsBroker b
    → b.work_ready_queue ≡ w.id ∷ ws
    → IsName w.id
    → Encodes f e
    → e.from ≡ c.id
    → is_alive e.kind ≡ false
    → length ds ≡ 1024
    → b.front_end_input ≡ id ∷ f ∷ bytes_of D ds ∷ rest
    → LocalTrip D b w c e.task ws ds
unfolding is_reply
local_trip D b w c e f id ws rest ds ok ready w_ok enc from task size sent =
    let sum = D.to_bytes (sum_from D D.zero_double ds) in
    let s1 = request_to_worker b ok e f (bytes_of D ds) enc id rest w.id ws ready sent in
    let e1 = record e { from_cluster = b.cluster_name; to_cluster = b.cluster_name; to = w.id } in
    let (g, enc2, done2) =
      process-answer D (record w { input = s1.frame ∷ bytes_of D ds ∷ [] }) e1 s1.frame ds [] w_ok
        s1.encodes size refl in
    let b1 = record (s1.after) { back_end_input = identity w.id ∷ g ∷ sum ∷ [] } in
    let ok1 : IsBroker b1 = record {
      name_ok = s1.well_formed.name_ok;
      workers_ok = s1.well_formed.workers_ok;
      count_ok = s1.well_formed.count_ok;
    } in
    let s3 =
      reply_to_client b1 ok1 (answer w.id e1) g sum enc2 (identity w.id) [] task (sym s1.name_kept)
        refl in
    record {
      b1 = s1.after;
      w1 = _;
      b2 = s3.after;
      task_msg = s1.frame;
      answer_msg = g;
      reply_msg = s3.frame;
      requested = s1.returns;
      to_worker = rw (← string_to_zmq_msg-identity w.id) s1.logged;
      worked = done2;
      to_broker = refl;
      replied = s3.returns;
      to_client = rw (← from, ← string_to_zmq_msg-identity e.from) s3.logged;
      waiting = s3.queue ∙ ap (λ q. q ++ w.id ∷ []) s1.queue;
      received =
          receive_result-eq D (record c { input = s3.frame ∷ sum ∷ [] }) _ s3.frame
            (sum_from D D.zero_double ds) [] s3.encodes refl;
    }
