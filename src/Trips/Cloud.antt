-- ===== src/Trips/Cloud.antt =====
-- The way of a request that the client's own cluster cannot take.
use sim_tools.Base.{ℕ, ◌<◌, ◌^◌, ◌≡◌, refl, ◌≢◌, true, false, List, [], ◌∷◌, ◌++◌, length}
use sim_tools.Base.Bytes.{Bytes}
use sim_tools.Base.Outcome.{done}
use sim_tools.Core.Envelope.{Envelope, Encodes}
use sim_tools.Cluster.Broker.{
  Broker, back_end, cloud_task, is_alive, is_submit, route_local_request, route_cloud,
}
use sim_tools.Cluster.Worker.{identity}
use sim_tools.Cluster.Routing.{IsBroker}
use sim_tools.Super.Selection.{find_proper}
use sim_tools.Super.Broker.{SuperBroker, task_router}
use sim_tools.Super.Router.{IsClusterMap}
use sim_tools.Trips.Local.{string_to_zmq_msg-identity}
use sim_tools.Trips.Steps.{request_to_super, foreign_to_worker, super_request}

-- The same broker with other input has the same properties.
pub with_input :
    (b : Broker) (front back cloud : List Bytes)
    → IsBroker b
    → IsBroker
        (record b { front_end_input = front; back_end_input = back; cloud_task_input = cloud })
with_input b front back cloud ok = record {
  name_ok = ok.name_ok;
  workers_ok = ok.workers_ok;
  count_ok = ok.count_ok;
}

-- The way of the request: from the client's broker a over the super broker s to b's worker w.
pub record RequestTrip (a b : Broker) (s : SuperBroker) (w : Bytes) (ws : List Bytes) (e : Envelope)
    (p : Bytes) : Type 0 where
  pub a1 : Broker
  pub b1 : Broker
  pub to_super_msg : Bytes
  pub to_cluster_msg : Bytes
  pub to_worker_msg : Bytes
  pub requested : route_local_request a ≡ done a1
  pub to_super : a1.log ≡ a.log ++ cloud_task (to_super_msg ∷ p ∷ []) ∷ []
  pub forwarded :
      task_router (record s { cloud_task_input = identity a.cluster_name ∷ to_super_msg ∷ p ∷ [] })
      ≡ done (record s {
        cloud_task_input = [];
        log = s.log ++ (identity b.cluster_name ∷ to_cluster_msg ∷ p ∷ []) ∷ [];
      })
  pub accepted : route_cloud (record b { cloud_task_input = to_cluster_msg ∷ p ∷ [] }) ≡ done b1
  pub to_worker : b1.log ≡ b.log ++ back_end (identity w ∷ to_worker_msg ∷ p ∷ []) ∷ []
  pub carries :
      Encodes to_worker_msg
        (record e { from_cluster = a.cluster_name; to_cluster = b.cluster_name })
  pub waiting : b1.work_ready_queue ≡ ws
  pub a_queue : a1.work_ready_queue ≡ []
  pub a_name : a1.cluster_name ≡ a.cluster_name
  pub b_name : b1.cluster_name ≡ b.cluster_name
  pub a_ok : IsBroker a1
  pub b_ok : IsBroker b1

-- A client's request that its own cluster cannot take goes to the worker that has waited longest
-- in the cluster that the super broker finds. What the worker gets still has the receiver's name
-- as the client left it: the cluster's broker passes the frame on as it came.
pub request_trip :
    (a b : Broker) (s : SuperBroker) (e : Envelope) (f id p w : Bytes) (ws rest : List Bytes)
    (n : ℕ)
    → IsBroker a
    → IsBroker b
    → IsClusterMap s.cluster_info_map
    → Encodes f e
    → is_alive e.kind ≡ false
    → is_submit e.direction ≡ true
    → e.from ≢ []
    → a.cluster_name ≢ []
    → b.cluster_name ≢ []
    → a.work_ready_queue ≡ []
    → find_proper [] 0 s.cluster_info_map ≡ (b.cluster_name, n)
    → 0 < n
    → b.work_ready_queue ≡ w ∷ ws
    → length (w ∷ ws) < 2 ^ 32
    → a.front_end_input ≡ id ∷ f ∷ p ∷ rest
    → RequestTrip a b s w ws e p
request_trip a b s e f id p w ws rest n a_ok b_ok s_ok enc task submitted named a_named b_named busy
      found some_ready ready fits sent =
    let s1 = request_to_super a a_ok e f p enc id rest busy sent in
    let e1 = record e { from_cluster = a.cluster_name } in
    let s2 =
      super_request (record s { cloud_task_input = identity a.cluster_name ∷ s1.frame ∷ p ∷ [] })
        s_ok e1 (identity a.cluster_name) s1.frame p s1.encodes [] refl task submitted named a_named
        b.cluster_name n found some_ready b_named in
    let e2 = record e1 { to_cluster = b.cluster_name } in
    let b0 = record b { cloud_task_input = s2.frame ∷ p ∷ [] } in
    let s3 =
      foreign_to_worker b0 (with_input b _ _ _ b_ok) e2 s2.frame p s2.encodes [] refl w ws ready
        fits submitted in
    record {
      a1 = s1.after;
      b1 = s3.after;
      to_super_msg = s1.frame;
      to_cluster_msg = s2.frame;
      to_worker_msg = s3.frame;
      requested = s1.returns;
      to_super = s1.logged;
      forwarded = rw (← string_to_zmq_msg-identity b.cluster_name) s2.returns;
      accepted = s3.returns;
      to_worker = rw (← string_to_zmq_msg-identity w) s3.logged;
      carries = s3.encodes;
      waiting = s3.queue;
      a_queue = s1.queue;
      a_name = s1.name_kept;
      b_name = s3.name_kept;
      a_ok = s1.well_formed;
      b_ok = s3.well_formed;
    }
