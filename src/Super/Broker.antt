-- ===== src/Super/Broker.antt =====
-- SuperBroker of super_broker.cpp: it keeps the clusters' states, and routes tasks between them.
-- Input and log are as in the cluster's broker.
use sim_tools.Base.{ℕ, Bool, true, false, ◌||◌, List, [], ◌∷◌, ◌++◌, if◌then◌else◌, ◌==◌}
use sim_tools.Base.Bytes.{Bytes}
use sim_tools.Base.Outcome.{Outcome, done, ◌>>=◌, recv}
use sim_tools.Core.Types.{TaskMeta, task_reply_rejected}
use sim_tools.Core.Text.{string_to_zmq_msg, c_string}
use sim_tools.Core.Wire.{load_meta, store_meta, load_state_info, zero_reply}
use sim_tools.Core.Address.{put_to_cluster_id, swap_addr}
use sim_tools.Cluster.Broker.{is_alive, is_submit}
use sim_tools.Super.ClusterMap.{ClusterMap, insert}
use sim_tools.Super.Selection.{find_proper}

pub record SuperBroker : Type 0 where
  pub cluster_info_map : ClusterMap
  pub pull_input : List Bytes
  pub cloud_task_input : List Bytes
  pub log : List (List Bytes)

abbrev pub send : SuperBroker → List Bytes → SuperBroker
send s frames = record s { log = s.log ++ frames ∷ [] }

abbrev pub is_empty : Bytes → Bool
is_empty [] = true
is_empty (c ∷ cs) = false

unfoldable pub make_super_broker : SuperBroker
make_super_broker = record {
  cluster_info_map = [];
  pull_input = [];
  cloud_task_input = [];
  log = [];
}

-- statePuller.
unfoldable pub state_puller : SuperBroker → Outcome SuperBroker
state_puller s = do
  (state_msg, rest) ← recv s.pull_input
  info ← load_state_info state_msg
  name ← c_string info.cluster_name
  done (record s { pull_input = rest; cluster_info_map = insert name info s.cluster_info_map })

-- taskRouter, the common end: the task goes to the target cluster.
unfoldable pub route_to : SuperBroker → TaskMeta → Bytes → Bytes → Bytes → Outcome SuperBroker
route_to s meta meta_msg payload_msg target_cluster = do
  m1 ← put_to_cluster_id meta target_cluster
  out_msg ← store_meta m1 meta_msg
  done (send s (string_to_zmq_msg target_cluster ∷ out_msg ∷ payload_msg ∷ []))

-- taskRouter, a request for which there is no proper cluster.
unfoldable pub reject : SuperBroker → TaskMeta → Bytes → Outcome SuperBroker
reject s meta meta_msg = do
  back ← swap_addr meta
  cluster ← c_string back.task_addr.to_cluster_id
  out_msg ← store_meta (record back { task_direction = task_reply_rejected }) meta_msg
  done (send s (string_to_zmq_msg cluster ∷ out_msg ∷ zero_reply ∷ []))

-- taskRouter, a request with a sender.
unfoldable pub route_found :
    SuperBroker → TaskMeta → Bytes → Bytes → Bytes × ℕ → Outcome SuperBroker
route_found s meta meta_msg payload_msg (target_cluster, max_count) =
    if max_count == 0 || is_empty target_cluster
    then reject s meta meta_msg
    else route_to s meta meta_msg payload_msg target_cluster

-- taskRouter, a request from a client with a name. Without its cluster's name it is dropped.
unfoldable pub route_named : SuperBroker → TaskMeta → Bytes → Bytes → Outcome SuperBroker
route_named s meta meta_msg payload_msg = do
  from_cluster_id ← c_string meta.task_addr.from_cluster_id
  if is_empty from_cluster_id
      then done s
      else route_found s meta meta_msg payload_msg (find_proper [] 0 s.cluster_info_map)

-- taskRouter, a request. Without a sender's name it is dropped.
unfoldable pub route_request : SuperBroker → TaskMeta → Bytes → Bytes → Outcome SuperBroker
route_request s meta meta_msg payload_msg = do
  from_id ← c_string meta.task_addr.from_id
  if is_empty from_id then done s else route_named s meta meta_msg payload_msg

-- taskRouter, a reply: to the cluster that it names.
unfoldable pub route_reply : SuperBroker → TaskMeta → Bytes → Bytes → Outcome SuperBroker
route_reply s meta meta_msg payload_msg = do
  target_cluster ← c_string meta.task_addr.to_cluster_id
  route_to s meta meta_msg payload_msg target_cluster

unfoldable pub task_router : SuperBroker → Outcome SuperBroker
unfolding is_alive is_submit
task_router s = do
  (cluster_msg, rest1) ← recv s.cloud_task_input
  (meta_msg, rest2) ← recv rest1
  (payload_msg, rest3) ← recv rest2
  meta ← load_meta meta_msg
  let received = record s { cloud_task_input = rest3 }
  if is_alive meta.task_type
      then done received
      else (if is_submit meta.task_direction
          then route_request received meta meta_msg payload_msg
          else route_reply received meta meta_msg payload_msg)

abbrev pub when : Bool → (SuperBroker → Outcome SuperBroker) → SuperBroker → Outcome SuperBroker
when true handler s = handler s
when false handler s = done s

-- One round of the loop in runTask; `pollin` stands for zmq::poll as in the cluster's broker.
unfoldable pub poll_round : (List Bytes → Bool) → SuperBroker → Outcome SuperBroker
poll_round pollin s = do
  s1 ← when (pollin s.pull_input) state_puller s
  when (pollin s.cloud_task_input) task_router s1
