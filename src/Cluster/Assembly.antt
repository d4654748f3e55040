-- ===== src/Cluster/Assembly.antt =====
-- ClusterStateReporter of cluster_state.cpp, OneCluster and ClusterHelper of cluster_broker.cpp.
use sim_tools.Base.{ℕ, zero, suc, ◌+◌, Bool, true, false, List, [], ◌∷◌, ◌++◌, ◌^◌, ltb}
use sim_tools.Base.Bytes.{Bytes}
use sim_tools.Base.Outcome.{Outcome, done, ◌>>=◌, ◌>>◌, in_bounds, recv}
use sim_tools.Core.Types.{ClusterStateInfo, default_state_info}
use sim_tools.Core.Text.{copy_name}
use sim_tools.Core.Wire.{encode_state_info}
use sim_tools.Cluster.Broker.{Broker, make_broker, get_ready_worker_count}
use sim_tools.Cluster.Worker.{Worker, make_worker}
use sim_tools.Cluster.Client.{Client}
use sim_tools.Cluster.Config.{ClusterCfg, client_name, worker_name}

-- `updates` are the frames on the way from socketFe_ to socketBe_, `pushed` those that socketPush_
-- has sent.
pub record Reporter : Type 0 where
  pub cluster_name : Bytes
  pub state_info : ClusterStateInfo
  pub updates : List Bytes
  pub pushed : List Bytes

-- The constructor.
unfoldable pub make_reporter : Bytes → Outcome Reporter
make_reporter name = do
  buffer ← copy_name default_state_info.cluster_name name
  done (record {
    cluster_name = name;
    state_info = record { cluster_name = buffer; ready_worker_count = 0 };
    updates = [];
    pushed = [];
  })

unfoldable pub set_cluster_state : Reporter → ClusterStateInfo → Reporter
set_cluster_state r info =
    let current = record r.state_info { ready_worker_count = info.ready_worker_count } in
    record r { state_info = current; updates = r.updates ++ encode_state_info current ∷ [] }

unfoldable pub forward_update : Reporter → Outcome Reporter
forward_update r = do
  (msg, rest) ← recv r.updates
  done (record r { updates = rest; pushed = r.pushed ++ msg ∷ [] })

-- A round of runTask, from whether the poll has set ZMQ_POLLIN in time.
unfoldable pub reporter_round : Bool → Reporter → Outcome Reporter
reporter_round true r = forward_update r
reporter_round false r = done r

pub record OneCluster : Type 0 where
  pub cluster_name : Bytes
  pub cluster_cfg : ClusterCfg
  pub state_info : ClusterStateInfo
  pub local_balancer : Broker
  pub cluster_state : Reporter
  pub clients : List Client
  pub workers : List Worker

-- The constructor.
unfoldable pub make_cluster : ClusterCfg → Outcome OneCluster
make_cluster cfg = do
  buffer ← copy_name default_state_info.cluster_name cfg.cluster_name
  balancer ← make_broker cfg.cluster_name
  reporter ← make_reporter cfg.cluster_name
  done (record {
    cluster_name = cfg.cluster_name;
    cluster_cfg = cfg;
    state_info = record default_state_info { cluster_name = buffer };
    local_balancer = balancer;
    cluster_state = reporter;
    clients = [];
    workers = [];
  })

-- One round of the loop of OneCluster's runTask.
unfoldable pub cluster_round : OneCluster → OneCluster
cluster_round c =
    let info = record c.state_info {
      ready_worker_count = get_ready_worker_count c.local_balancer;
    } in
    record c { state_info = info; cluster_state = set_cluster_state c.cluster_state info }

-- The clients from number i on, so many. The number is an int, which ++i must not overflow.
unfoldable pub make_clients : ℕ → ℕ → Outcome (List Client)
make_clients i zero = done []
make_clients i (suc n) = do
  in_bounds (ltb (i + 1) (2 ^ 31))
  cs ← make_clients (i + 1) n
  done (record { id = client_name i; input = []; log = [] } ∷ cs)

unfoldable pub make_workers : ℕ → ℕ → Outcome (List Worker)
make_workers i zero = done []
make_workers i (suc n) = do
  w ← make_worker (worker_name i)
  in_bounds (ltb (i + 1) (2 ^ 31))
  ws ← make_workers (i + 1) n
  done (w ∷ ws)

unfoldable pub build_cluster : OneCluster → Outcome OneCluster
build_cluster c = do
  clients ← make_clients 0 c.cluster_cfg.client_num
  workers ← make_workers 0 c.cluster_cfg.worker_num
  done (record c { clients = c.clients ++ clients; workers = c.workers ++ workers })
