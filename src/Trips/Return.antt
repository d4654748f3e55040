-- ===== src/Trips/Return.antt =====
-- The way back between clusters: of an answer, and of a rejection.
use sim_tools.Base.{
  ℕ, ◌<◌, ◌^◌, ◌≡◌, refl, sym, subst, arith, ◌≢◌, true, false, List, [], ◌∷◌, ◌++◌, length,
}
use sim_tools.Base.Bytes.{Bytes}
use sim_tools.Base.Outcome.{done}
use sim_tools.Core.Types.{task_reply_rejected}
use sim_tools.Core.Names.{IsName}
use sim_tools.Core.Text.{string_to_zmq_msg}
use sim_tools.Core.Wire.{zero_reply}
use sim_tools.Core.Doubles.{Doubles, bytes_of, sum_from}
use sim_tools.Core.Envelope.{Envelope, Encodes, turned}
use sim_tools.Cluster.Broker.{
  Broker, front_end, cloud_task, is_alive, is_submit, route_local_request, route_local_reply,
  route_cloud,
}
use sim_tools.Cluster.Worker.{Worker, identity, process}
use sim_tools.Cluster.Client.{Client, answered, rejected, is_reply, receive_result}
use sim_tools.Cluster.Answers.{answer, process-answer, receive_result-eq, receive_result-rejected}
use sim_tools.Cluster.Routing.{IsBroker}
use sim_tools.Super.Selection.{find_proper}
use sim_tools.Super.Broker.{SuperBroker, task_router}
use sim_tools.Super.Router.{IsClusterMap}
use sim_tools.Trips.Local.{string_to_zmq_msg-identity}
use sim_tools.Trips.Steps.{
  request_to_super, reply_to_super, cloud_to_client, super_reply, super_reject,
}
use sim_tools.Trips.Cloud.{with_input}

-- The way of an answer with the given payload: from b's worker w over the super broker s to the
-- client c of the broker a.
pub record AnswerTrip (D : Doubles) (a b : Broker) (s : SuperBroker) (w : Worker) (c : Client)
    (task : ℕ) (task_msg : Bytes) (ds : List D.Double) : Type 0 where
  pub a1 : Broker
  pub b1 : Broker
  pub w1 : Worker
  pub answer_msg : Bytes
  pub to_super_msg : Bytes
  pub to_cluster_msg : Bytes
  pub to_client_msg : Bytes
  pub worked : process D (record w { input = task_msg ∷ bytes_of D ds ∷ [] }) ≡ done w1
  pub to_broker :
      w1.log ≡ w.log ++ (answer_msg ∷ D.to_bytes (sum_from D D.zero_double ds) ∷ []) ∷ []
  pub replied :
      route_local_reply (record b {
        back_end_input = identity w.id ∷ answer_msg ∷ D.to_bytes (sum_from D D.zero_double ds) ∷ [];
      })
      ≡ done b1
  pub to_super :
      b1.log
      ≡ b.log ++ cloud_task (to_super_msg ∷ D.to_bytes (sum_from D D.zero_double ds) ∷ []) ∷ []
  pub waiting : b1.work_ready_queue ≡ b.work_ready_queue ++ w.id ∷ []
  pub forwarded :
      task_router (record s {
        cloud_task_input =
            identity b.cluster_name ∷ to_super_msg ∷ D.to_bytes (sum_from D D.zero_double ds) ∷ [];
      })
      ≡ done (record s {
        cloud_task_input = [];
        log =
            s.log
            ++ (identity a.cluster_name
                ∷ to_cluster_msg
                ∷ D.to_bytes (sum_from D D.zero_double ds)
                ∷ [])
              ∷ [];
      })
  pub accepted :
      route_cloud (record a {
        cloud_task_input = to_cluster_msg ∷ D.to_bytes (sum_from D D.zero_double ds) ∷ [];
      })
      ≡ done a1
  pub to_client :
      a1.log
      ≡ a.log
        ++ front_end (identity c.id ∷ to_client_msg ∷ D.to_bytes (sum_from D D.zero_double ds) ∷ [])
          ∷ []
  pub received :
      receive_result D
        (record c { input = to_client_msg ∷ D.to_bytes (sum_from D D.zero_double ds) ∷ [] })
      ≡ done (record c { input = [] }, answered task (sum_from D D.zero_double ds))

-- A worker's answer to a task of another cluster's client reaches that client, with the number of
-- its task and the sum of its array, and the worker is ready again in its own cluster.
pub answer_trip :
    (D : Doubles) (a b : Broker) (s : SuperBroker) (w : Worker) (c : Client) (e : Envelope)
    (f : Bytes) (ds : List D.Double)
    → IsBroker a
    → IsBroker b
    → IsClusterMap s.cluster_info_map
    → IsName w.id
    → Encodes f e
    → e.from_cluster ≡ a.cluster_name
    → e.from ≡ c.id
    → is_alive e.kind ≡ false
    → a.cluster_name ≢ b.cluster_name
    → length a.work_ready_queue < 2 ^ 32
    → length ds ≡ 1024
    → AnswerTrip D a b s w c e.task f ds
unfolding is_submit is_reply
answer_trip D a b s w c e f ds a_ok b_ok s_ok w_ok enc from_a from_c task apart fits size =
    let sum = D.to_bytes (sum_from D D.zero_double ds) in
    let (g, enc1, done1) =
      process-answer D (record w { input = f ∷ bytes_of D ds ∷ [] }) e f ds [] w_ok enc size refl in
    let b0 = record b { back_end_input = identity w.id ∷ g ∷ sum ∷ [] } in
    let s2 =
      reply_to_super b0 (with_input b _ _ _ b_ok) (answer w.id e) g sum enc1 (identity w.id) [] task
        (subst (λ (x : Bytes). x ≢ b.cluster_name) (sym from_a) apart) refl in
    let e2 = record (answer w.id e) {
      to_cluster = e.from_cluster;
      from_cluster = b.cluster_name;
    } in
    let s3 =
      super_reply (record s { cloud_task_input = identity b.cluster_name ∷ s2.frame ∷ sum ∷ [] })
        s_ok e2 (identity b.cluster_name) s2.frame sum s2.encodes [] refl task refl in
    let a0 = record a { cloud_task_input = s3.frame ∷ sum ∷ [] } in
    let s4 =
      cloud_to_client a0 (with_input a _ _ _ a_ok) e2 s3.frame sum s3.encodes [] refl fits refl in
    record {
      a1 = s4.after;
      b1 = s2.after;
      w1 = _;
      answer_msg = g;
      to_super_msg = s2.frame;
      to_cluster_msg = s3.frame;
      to_client_msg = s4.frame;
      worked = done1;
      to_broker = refl;
      replied = s2.returns;
      to_super = s2.logged;
      waiting = s2.queue;
      forwarded = rw (← from_a, ← string_to_zmq_msg-identity e.from_cluster) s3.returns;
      accepted = s4.returns;
      to_client = rw (← from_c, ← string_to_zmq_msg-identity e.from) s4.logged;
      received =
          receive_result-eq D (record c { input = s4.frame ∷ sum ∷ [] }) _ s4.frame
            (sum_from D D.zero_double ds) [] s4.encodes refl;
    }

-- The way of a request that is rejected: from a client of the broker a to the super broker s, and
-- back.
pub record RejectionTrip (D : Doubles) (a : Broker) (s : SuperBroker) (c : Client) (task : ℕ)
    (p : Bytes) : Type 0 where
  pub a1 : Broker
  pub a2 : Broker
  pub to_super_msg : Bytes
  pub to_cluster_msg : Bytes
  pub to_client_msg : Bytes
  pub requested : route_local_request a ≡ done a1
  pub to_super : a1.log ≡ a.log ++ cloud_task (to_super_msg ∷ p ∷ []) ∷ []
  pub refused :
      task_router (record s { cloud_task_input = identity a.cluster_name ∷ to_super_msg ∷ p ∷ [] })
      ≡ done (record s {
        cloud_task_input = [];
        log = s.log ++ (identity a.cluster_name ∷ to_cluster_msg ∷ zero_reply ∷ []) ∷ [];
      })
  pub accepted :
      route_cloud (record a1 { cloud_task_input = to_cluster_msg ∷ zero_reply ∷ [] }) ≡ done a2
  pub to_client :
      a2.log ≡ a1.log ++ front_end (identity c.id ∷ to_client_msg ∷ zero_reply ∷ []) ∷ []
  pub received :
      receive_result D (record c { input = to_client_msg ∷ zero_reply ∷ [] })
      ≡ done (record c { input = [] }, rejected task)

-- While no worker is ready anywhere, a client's request comes back to it as rejected, under the
-- number of its task.
pub rejection_trip :
    (D : Doubles) (a : Broker) (s : SuperBroker) (c : Client) (e : Envelope) (f id p t : Bytes)
    (rest : List Bytes)
    → IsBroker a
    → IsClusterMap s.cluster_info_map
    → Encodes f e
    → e.from ≡ c.id
    → is_alive e.kind ≡ false
    → is_submit e.direction ≡ true
    → e.from ≢ []
    → a.cluster_name ≢ []
    → a.work_ready_queue ≡ []
    → find_proper [] 0 s.cluster_info_map ≡ (t, 0)
    → a.front_end_input ≡ id ∷ f ∷ p ∷ rest
    → RejectionTrip D a s c e.task p
unfolding is_submit is_reply string_to_zmq_msg identity
rejection_trip D a s c e f id p t rest a_ok s_ok enc from_c task submitted named placed busy
      none_found sent =
    let s1 = request_to_super a a_ok e f p enc id rest busy sent in
    let e1 = record e { from_cluster = a.cluster_name } in
    let s2 =
      super_reject (record s { cloud_task_input = identity a.cluster_name ∷ s1.frame ∷ p ∷ [] })
        s_ok e1 (identity a.cluster_name) s1.frame p s1.encodes [] refl task submitted named placed
        t none_found in
    let e2 = record (turned e1) { direction = task_reply_rejected } in
    let a0 = record (s1.after) { cloud_task_input = s2.frame ∷ zero_reply ∷ [] } in
    let room : length s1.after.work_ready_queue < 2 ^ 32 =
      subst (λ (q : List Bytes). length q < 2 ^ 32) (sym s1.queue) (omega arith) in
    let s3 =
      cloud_to_client a0 (with_input s1.after _ _ _ s1.well_formed) e2 s2.frame zero_reply
        s2.encodes [] refl room refl in
    record {
      a1 = s1.after;
      a2 = s3.after;
      to_super_msg = s1.frame;
      to_cluster_msg = s2.frame;
      to_client_msg = s3.frame;
      requested = s1.returns;
      to_super = s1.logged;
      refused = s2.returns;
      accepted = s3.returns;
      to_client = rw (← from_c) s3.logged;
      received =
          receive_result-rejected D (record c { input = s3.frame ∷ zero_reply ∷ [] }) e2 s3.frame
            zero_reply [] s3.encodes refl refl;
    }
