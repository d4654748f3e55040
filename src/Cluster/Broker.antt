-- ===== src/Cluster/Broker.antt =====
-- LocalBalanceBroker of cluster_broker.cpp: its members, its three handlers and its poll loop.
-- A socket's input is the sequence of frames that its recv calls return. The multipart messages
-- passed to send, on any of the three sockets, are kept in one log, oldest first.
use sim_tools.Base.{ℕ, ◌%◌, ◌^◌, Bool, true, false, List, [], ◌∷◌, ◌++◌, if◌then◌else◌, length, ltb}
use sim_tools.Base.Bytes.{Bytes, bytes_eq}
use sim_tools.Base.Outcome.{Outcome, done, fault, ◌>>=◌, recv}
use sim_tools.Core.Types.{
  TaskMeta, TaskType, TaskDirection, default_meta, alive_signal, task_submit, task_reply_rejected,
}
use sim_tools.Core.Text.{string_to_zmq_msg, c_string}
use sim_tools.Core.Wire.{load_meta, store_meta, encode_meta, zero_reply}
use sim_tools.Core.Address.{put_from_cluster_id, put_to_cluster_id, put_to_id, swap_addr}

-- One multipart message, and the socket that it is sent on.
pub data Sent : Type 0 where
  front_end back_end cloud_task : List Bytes → Sent

pub record Broker : Type 0 where
  pub work_ready_queue : List Bytes
  pub ready_worker_count : ℕ  -- std::atomic<uint32_t>
  pub cluster_name : Bytes
  pub front_end_input : List Bytes
  pub back_end_input : List Bytes
  pub cloud_task_input : List Bytes
  pub log : List Sent

abbrev pub u32_size : List Bytes → ℕ
u32_size q = length q % 2 ^ 32

abbrev pub send : Broker → Sent → Broker
send b s = record b { log = b.log ++ s ∷ [] }

-- The queue after a push or a pop, and the counter that is set from its size.
abbrev pub set_queue : Broker → List Bytes → Broker
set_queue b q = record b { work_ready_queue = q; ready_worker_count = u32_size q }

unfoldable pub is_alive : TaskType → Bool
is_alive alive_signal = true
is_alive _ = false

unfoldable pub is_submit : TaskDirection → Bool
is_submit task_submit = true
is_submit _ = false

-- The constructor: an alive signal goes to the super broker.
unfoldable pub make_broker : Bytes → Outcome Broker
make_broker name = do
  meta ← put_from_cluster_id default_meta name
  let signal = encode_meta (record meta { task_type = alive_signal })
  done (record {
    work_ready_queue = [];
    ready_worker_count = 0;
    cluster_name = name;
    front_end_input = [];
    back_end_input = [];
    cloud_task_input = [];
    log = cloud_task (signal ∷ string_to_zmq_msg [] ∷ []) ∷ [];
  })

-- routeCloud, a request from another cluster while a worker is ready: the frame goes on as it
-- came, and the address is updated in the local copy only. `front` of an empty queue is a fault.
unfoldable pub cloud_accept : Broker → TaskMeta → Bytes → Bytes → List Bytes → Outcome Broker
cloud_accept b meta meta_msg payload_msg [] = fault
cloud_accept b meta meta_msg payload_msg (worker_id ∷ rest) = do
  m1 ← put_to_cluster_id meta b.cluster_name
  m2 ← put_to_id m1 worker_id
  done (
      send (set_queue b rest)
        (back_end (string_to_zmq_msg worker_id ∷ meta_msg ∷ payload_msg ∷ [])))

-- routeCloud, a request from another cluster while no worker is ready. The name of the target
-- cluster is read into a frame that is not sent.
unfoldable pub cloud_reject : Broker → TaskMeta → Bytes → Outcome Broker
cloud_reject b meta meta_msg = do
  back ← swap_addr meta
  reply_msg ← store_meta (record back { task_direction = task_reply_rejected }) meta_msg
  cluster_msg ← c_string back.task_addr.to_cluster_id
  done (send b (cloud_task (reply_msg ∷ zero_reply ∷ [])))

unfoldable pub cloud_submit : Broker → TaskMeta → Bytes → Bytes → Outcome Broker
cloud_submit b meta meta_msg payload_msg =
    let counted = set_queue b b.work_ready_queue in
    if ltb 0 counted.ready_worker_count
    then cloud_accept counted meta meta_msg payload_msg b.work_ready_queue
    else cloud_reject counted meta meta_msg

-- routeCloud, a reply to a client of this cluster.
unfoldable pub cloud_reply : Broker → TaskMeta → Bytes → Bytes → Outcome Broker
cloud_reply b meta meta_msg payload_msg = do
  client_id ← c_string meta.task_addr.to_id
  done (send b (front_end (string_to_zmq_msg client_id ∷ meta_msg ∷ payload_msg ∷ [])))

unfoldable pub route_cloud : Broker → Outcome Broker
unfolding is_submit
route_cloud b = do
  (meta_msg, rest1) ← recv b.cloud_task_input
  (payload_msg, rest2) ← recv rest1
  meta ← load_meta meta_msg
  let received = record b { cloud_task_input = rest2 }
  if is_submit meta.task_direction
      then cloud_submit received meta meta_msg payload_msg
      else cloud_reply received meta meta_msg payload_msg

-- routeLocalRequest, after the cluster's name is put in: to the first ready worker, or to the
-- super broker.
unfoldable pub forward_request : Broker → TaskMeta → Bytes → Bytes → List Bytes → Outcome Broker
forward_request b meta meta_msg task_msg (worker_id ∷ rest) = do
  m1 ← put_to_cluster_id meta b.cluster_name
  m2 ← put_to_id m1 worker_id
  out_msg ← store_meta m2 meta_msg
  done (send (set_queue b rest) (back_end (string_to_zmq_msg worker_id ∷ out_msg ∷ task_msg ∷ [])))
forward_request b meta meta_msg task_msg [] = do
  out_msg ← store_meta meta meta_msg
  done (send b (cloud_task (out_msg ∷ task_msg ∷ [])))

unfoldable pub route_local_request : Broker → Outcome Broker
route_local_request b = do
  (client_msg, rest1) ← recv b.front_end_input
  (meta_msg, rest2) ← recv rest1
  (task_msg, rest3) ← recv rest2
  loaded ← load_meta meta_msg
  meta ← put_from_cluster_id loaded b.cluster_name
  forward_request (record b { front_end_input = rest3 }) meta meta_msg task_msg b.work_ready_queue

-- routeLocalReply, to a client of this cluster.
unfoldable pub reply_local : Broker → TaskMeta → Bytes → Bytes → Outcome Broker
reply_local b meta out_msg reply_msg = do
  client_id ← c_string meta.task_addr.to_id
  done (send b (front_end (string_to_zmq_msg client_id ∷ out_msg ∷ reply_msg ∷ [])))

-- routeLocalReply, once the worker is marked as ready and the message is no alive signal.
unfoldable pub forward_reply : Broker → TaskMeta → Bytes → Bytes → Outcome Broker
forward_reply b meta meta_msg reply_msg = do
  origin ← c_string meta.task_addr.from_cluster_id
  m1 ← put_to_cluster_id meta origin
  m2 ← put_from_cluster_id m1 b.cluster_name
  out_msg ← store_meta m2 meta_msg
  target ← c_string m2.task_addr.to_cluster_id
  if bytes_eq b.cluster_name target
      then reply_local b m2 out_msg reply_msg
      else done (send b (cloud_task (out_msg ∷ reply_msg ∷ [])))

unfoldable pub route_local_reply : Broker → Outcome Broker
unfolding is_alive
route_local_reply b = do
  (worker_msg, rest1) ← recv b.back_end_input
  (meta_msg, rest2) ← recv rest1
  (reply_msg, rest3) ← recv rest2
  meta ← load_meta meta_msg
  worker_id ← c_string meta.task_addr.from_id
  let ready = set_queue (record b { back_end_input = rest3 }) (b.work_ready_queue ++ worker_id ∷ [])
  if is_alive meta.task_type then done ready else forward_reply ready meta meta_msg reply_msg

abbrev pub when : Bool → (Broker → Outcome Broker) → Broker → Outcome Broker
when true handler b = handler b
when false handler b = done b

-- Frames that have come in on the three sockets.
pub record Arrivals : Type 0 where
  pub back : List Bytes
  pub front : List Bytes
  pub cloud : List Bytes

abbrev pub arrive : Broker → Arrivals → Broker
arrive b a = record b {
  back_end_input = b.back_end_input ++ a.back;
  front_end_input = b.front_end_input ++ a.front;
  cloud_task_input = b.cloud_task_input ++ a.cloud;
}

-- The loop of runTask. `pollin` stands for zmq::poll: whether it sets ZMQ_POLLIN for a socket with
-- the given input.
module _ (pollin : List Bytes → Bool) where
  -- One round: the counter is updated, the sockets are polled, and the handlers run in this order.
  unfoldable pub poll_round : Broker → Outcome Broker
  poll_round b = do
    let counted = record b { ready_worker_count = u32_size b.work_ready_queue }
    b1 ← when (pollin b.back_end_input) route_local_reply counted
    b2 ← when (pollin b.front_end_input) route_local_request b1
    when (pollin b.cloud_task_input) route_cloud b2

  -- The rounds, each after what has arrived before it.
  unfoldable pub run_task : Broker → List Arrivals → Outcome Broker
  run_task b [] = done b
  run_task b (a ∷ rest) = poll_round (arrive b a) >>= λ b'. run_task b' rest

unfoldable pub get_ready_worker_count : Broker → ℕ
get_ready_worker_count b = b.ready_worker_count
