-- ===== src/Trips/Report.antt =====
-- A cluster's report on its way to the super broker.
use sim_tools.Base.{◌^◌, ◌<◌, ◌≡◌, refl, [], ◌∷◌, ◌++◌, some, true}
use sim_tools.Base.Bytes.{Bytes, bytes_eq_iff}
use sim_tools.Base.Outcome.{done}
use sim_tools.Core.Types.{ClusterStateInfo, IsStateInfo}
use sim_tools.Core.Wire.{encode_state_info}
use sim_tools.Cluster.Broker.{get_ready_worker_count}
use sim_tools.Cluster.Assembly.{
  Reporter, OneCluster, set_cluster_state, forward_update, reporter_round, cluster_round,
}
use sim_tools.Cluster.Startup.{IsReporter}
use sim_tools.Super.ClusterMap.{lookup}
use sim_tools.Super.Broker.{SuperBroker, state_puller}
use sim_tools.Super.Router.{IsClusterMap}
use sim_tools.Super.Refinement.{state_puller-lookup}

-- What the cluster's thread reports is the number of ready workers that its broker has counted, and
-- this number is what the super broker then holds for the cluster.
pub report_trip :
    (c : OneCluster) (s : SuperBroker)
    → IsReporter c.cluster_state
    → c.cluster_state.updates ≡ []
    → c.local_balancer.ready_worker_count < 2 ^ 32
    → IsClusterMap s.cluster_info_map
    → (frame : Bytes) × (r : Reporter) × (s' : SuperBroker) × (info : ClusterStateInfo)
      × (reporter_round true (cluster_round c).cluster_state ≡ done r)
      × (r.pushed ≡ c.cluster_state.pushed ++ frame ∷ [])
      × IsReporter r
      × (state_puller (record s { pull_input = frame ∷ [] }) ≡ done s')
      × IsClusterMap s'.cluster_info_map
      × (lookup c.cluster_state.cluster_name s'.cluster_info_map ≡ some info)
      × (info.ready_worker_count ≡ c.local_balancer.ready_worker_count)
unfolding cluster_round set_cluster_state reporter_round forward_update get_ready_worker_count
report_trip c s ok quiet room m =
    let name = c.cluster_state.cluster_name in
    let count = c.local_balancer.ready_worker_count in
    let info : ClusterStateInfo = record c.cluster_state.state_info {
      ready_worker_count = count;
    } in
    let info_ok : IsStateInfo info = record { name_ok = ok.info_ok.name_ok; count_ok = room } in
    let frame = encode_state_info info in
    let (map, pulled, well_formed, found) =
      state_puller-lookup (record s { pull_input = frame ∷ [] }) info name [] info_ok ok.name_read m
        refl in
    (
      frame,
      record c.cluster_state {
        state_info = info;
        updates = [];
        pushed = c.cluster_state.pushed ++ frame ∷ [];
      },
      record s { pull_input = []; cluster_info_map = map },
      info,
      rw quiet refl,
      refl,
      record { info_ok = info_ok; name_read = ok.name_read },
      pulled,
      well_formed,
      rw (found name, (bytes_eq_iff name name).1 refl) refl,
      refl,
    )
