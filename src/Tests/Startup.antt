-- ===== src/Tests/Startup.antt =====
-- A cluster that starts and reports, at concrete inputs.
use sim_tools.Base.{ℕ, ◌≤◌, ◌≡◌, refl, ◌↔◌, ◌-◌, [], ◌∷◌, ◌++◌, map, some, true, arith}
use sim_tools.Base.Bytes.{Bytes}
use sim_tools.Base.Outcome.{done, fault}
use sim_tools.Core.Types.{ClusterStateInfo, alive_signal}
use sim_tools.Core.Text.{c_string, string_to_zmq_msg}
use sim_tools.Core.Envelope.{Encodes}
use sim_tools.Cluster.Broker.{cloud_task}
use sim_tools.Cluster.Routing.{IsBroker}
use sim_tools.Cluster.Answers.{blank}
use sim_tools.Cluster.Config.{
  ClusterCfg, configure, default_super_broker_cfg, client_name, worker_name,
}
use sim_tools.Cluster.Assembly.{
  Reporter, OneCluster, make_cluster, build_cluster, cluster_round, reporter_round,
}
use sim_tools.Cluster.Startup.{IsReporter, configure-fault, make_cluster-parts}
use sim_tools.Cluster.Naming.{numbered, AllDistinct, build_cluster-names}
use sim_tools.Trips.Report.{report_trip}
use sim_tools.Super.ClusterMap.{lookup}
use sim_tools.Super.Broker.{SuperBroker, make_super_broker, state_puller}
use sim_tools.Super.Router.{IsClusterMap}
use sim_tools.Tests.Data.{cluster_a, cluster_a-IsName, buffer1, quiet_broker, worker_id}

abbrev cfg : ClusterCfg
cfg = record {
  cluster_name = cluster_a;
  worker_num = 3;
  client_num = 2;
  super_broker_cfg = default_super_broker_cfg;
  local_frontend = [];
  local_backend = [];
}

-- The number of a string of one digit.
abbrev one_digit : Bytes → ℕ
one_digit [] = 0
one_digit (d ∷ ds) = d - 48

configure-fault_example :
    (configure one_digit ([] ∷ cluster_a ∷ (55 ∷ []) ∷ (50 ∷ []) ∷ (51 ∷ []) ∷ []) ≡ fault)
    ↔ (3 ≤ 7)
configure-fault_example = configure-fault one_digit [] cluster_a (55 ∷ []) (50 ∷ []) (51 ∷ [])

make_cluster-parts_example :
    (c : OneCluster) × (make_cluster cfg ≡ done c)
    × IsBroker c.local_balancer
    × ((g : Bytes) × Encodes g (record blank { from_cluster = cluster_a; kind = alive_signal })
        × (c.local_balancer.log ≡ cloud_task (g ∷ string_to_zmq_msg [] ∷ []) ∷ []))
    × IsReporter c.cluster_state
    × (c.cluster_state.cluster_name ≡ cluster_a)
    × (c.cluster_state.updates ≡ [])
    × (c.clients ≡ [])
    × (c.workers ≡ [])
make_cluster-parts_example = make_cluster-parts cfg cluster_a-IsName

-- A cluster with one ready worker, before it has clients and workers of its own.
abbrev new_cluster : OneCluster
new_cluster = record {
  cluster_name = cluster_a;
  cluster_cfg = cfg;
  state_info = record { cluster_name = buffer1 65; ready_worker_count = 0 };
  local_balancer = quiet_broker cluster_a (worker_id ∷ []);
  cluster_state = record {
    cluster_name = cluster_a;
    state_info = record { cluster_name = buffer1 65; ready_worker_count = 0 };
    updates = [];
    pushed = [];
  };
  clients = [];
  workers = [];
}

build_cluster-names_example :
    (c' : OneCluster) × (build_cluster new_cluster ≡ done c')
    × (map (λ k. k.id) c'.clients ≡ numbered client_name 0 2)
    × AllDistinct (numbered client_name 0 2)
    × (map (λ w. w.id) c'.workers ≡ numbered worker_name 0 3)
    × AllDistinct (numbered worker_name 0 3)
build_cluster-names_example = build_cluster-names new_cluster refl refl (omega arith) (omega arith)

new_cluster-IsReporter : IsReporter new_cluster.cluster_state
unfolding c_string
new_cluster-IsReporter = record {
  info_ok = record { name_ok = omega arith; count_ok = omega arith };
  name_read = refl;
}

make_super_broker-IsClusterMap : IsClusterMap make_super_broker.cluster_info_map
unfolding make_super_broker
make_super_broker-IsClusterMap = record { names = tt; ordered = tt }

report_trip_example :
    (frame : Bytes) × (r : Reporter) × (s' : SuperBroker) × (info : ClusterStateInfo)
    × (reporter_round true (cluster_round new_cluster).cluster_state ≡ done r)
    × (r.pushed ≡ [] ++ frame ∷ [])
    × IsReporter r
    × (state_puller (record make_super_broker { pull_input = frame ∷ [] }) ≡ done s')
    × IsClusterMap s'.cluster_info_map
    × (lookup cluster_a s'.cluster_info_map ≡ some info)
    × (info.ready_worker_count ≡ 1)
report_trip_example =
    report_trip new_cluster make_super_broker new_cluster-IsReporter refl (omega arith)
      make_super_broker-IsClusterMap
