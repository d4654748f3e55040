-- ===== src/Tests/Super.antt =====
-- The super broker's handlers at concrete inputs.
use sim_tools.Base.{ℕ, ◌≡◌, refl, ◌≤◌, [], ◌∷◌, arith, some, if◌then◌else◌}
use sim_tools.Base.Bytes.{Bytes, bytes_eq, bytes_lt}
use sim_tools.Base.Outcome.{done}
use sim_tools.Core.Types.{ClusterStateInfo}
use sim_tools.Core.Text.{c_string}
use sim_tools.Core.Wire.{encode_state_info}
use sim_tools.Super.ClusterMap.{ClusterMap, lookup}
use sim_tools.Super.Selection.{find_proper, AtMost, Found, find_proper-best}
use sim_tools.Super.Broker.{SuperBroker, state_puller, task_router}
use sim_tools.Super.Router.{IsClusterMap, route}
use sim_tools.Super.Refinement.{Routes, task_router-Routes, state_puller-lookup}
use sim_tools.Tests.Data.{
  cluster_a, cluster_b, cluster_a-IsName, cluster_b-IsName, buffer1, foreign_frame,
  foreign_envelope, foreign-Encodes,
}

abbrev state_of : ℕ → ℕ → ClusterStateInfo
state_of letter count = record { cluster_name = buffer1 letter; ready_worker_count = count }

abbrev two_clusters : ClusterMap
two_clusters = (cluster_a, state_of 65 1) ∷ (cluster_b, state_of 66 4) ∷ []

two_clusters-IsClusterMap : IsClusterMap two_clusters
unfolding bytes_lt
two_clusters-IsClusterMap = record {
  names = (cluster_a-IsName, (cluster_b-IsName, tt));
  ordered = (refl, tt);
}

abbrev asked_super : SuperBroker
asked_super = record {
  cluster_info_map = two_clusters;
  pull_input = encode_state_info (state_of 65 9) ∷ [];
  cloud_task_input = (65 ∷ 0 ∷ []) ∷ foreign_frame ∷ (5 ∷ []) ∷ [];
  log = [];
}

task_router-Routes_example :
    Routes
      (task_router asked_super)
      (record asked_super { cloud_task_input = [] })
      (route two_clusters foreign_envelope (5 ∷ []))
task_router-Routes_example =
    task_router-Routes asked_super foreign_envelope (65 ∷ 0 ∷ []) foreign_frame (5 ∷ []) []
      two_clusters-IsClusterMap foreign-Encodes refl

state_puller-lookup_example :
    (m : ClusterMap) × (state_puller asked_super
      ≡ done (record asked_super { pull_input = []; cluster_info_map = m }))
    × IsClusterMap m
    × ((k : Bytes)
        → lookup k m
          ≡ (if bytes_eq cluster_a k then some (state_of 65 9) else lookup k two_clusters))
unfolding c_string
state_puller-lookup_example =
    state_puller-lookup asked_super (state_of 65 9) cluster_a [] (omega arith) refl
      two_clusters-IsClusterMap refl

find_proper-best_example : AtMost 4 two_clusters × (0 ≤ 4) × Found [] 0 two_clusters (cluster_b, 4)
unfolding find_proper
find_proper-best_example = find_proper-best [] 0 two_clusters
