-- ===== src/Tests/Trips.antt =====
-- The trips of a task, between the client c0, the clusters A and B and the worker w0.
use sim_tools.Base.{ℕ, refl, ◌≢◌, List, [], ◌∷◌, arith}
use sim_tools.Base.Bytes.{Bytes}
use sim_tools.Core.Doubles.{bytes_of}
use sim_tools.Cluster.Broker.{is_alive, is_submit}
use sim_tools.Super.ClusterMap.{ClusterMap}
use sim_tools.Base.Bytes.{bytes_lt}
use sim_tools.Super.Broker.{SuperBroker}
use sim_tools.Super.Router.{IsClusterMap}
use sim_tools.Super.Selection.{find_proper}
use sim_tools.Trips.Local.{LocalTrip, local_trip}
use sim_tools.Trips.Cloud.{RequestTrip, request_trip}
use sim_tools.Trips.Return.{AnswerTrip, answer_trip, RejectionTrip, rejection_trip}
use sim_tools.Tests.Data.{
  plain_doubles, ones, length-ones, client_id, worker_id, worker_id-IsName, cluster_a, cluster_b,
  cluster_a-IsName, cluster_b-IsName, buffer1, request_frame, request_envelope, request-Encodes,
  foreign_frame, foreign_envelope, foreign-Encodes, idle_worker, waiting_client, quiet_broker,
  quiet_broker-IsBroker, asked_broker, asked_broker-IsBroker,
}

abbrev one_worker : List Bytes
one_worker = worker_id ∷ []

local_trip_example :
    LocalTrip plain_doubles
      (asked_broker cluster_a one_worker (bytes_of plain_doubles ones))
      idle_worker
      waiting_client
      7
      []
      ones
unfolding is_alive
local_trip_example =
    local_trip plain_doubles (asked_broker cluster_a one_worker (bytes_of plain_doubles ones))
      idle_worker waiting_client request_envelope request_frame (99 ∷ 48 ∷ 0 ∷ []) [] [] ones
      (asked_broker-IsBroker cluster_a one_worker (bytes_of plain_doubles ones) cluster_a-IsName
        (worker_id-IsName, tt))
      refl worker_id-IsName request-Encodes refl refl length-ones refl

abbrev reports : ℕ → ClusterMap
reports n =
    (cluster_a, record { cluster_name = buffer1 65; ready_worker_count = 0 })
    ∷ (cluster_b, record { cluster_name = buffer1 66; ready_worker_count = n })
    ∷ []

abbrev informed : ℕ → SuperBroker
informed n = record {
  cluster_info_map = reports n;
  pull_input = [];
  cloud_task_input = [];
  log = [];
}

reports-IsClusterMap : (n : ℕ) → IsClusterMap (reports n)
unfolding bytes_lt
reports-IsClusterMap n = record {
  names = (cluster_a-IsName, (cluster_b-IsName, tt));
  ordered = (refl, tt);
}

cluster_names : (cluster_a ≢ []) × (cluster_b ≢ []) × (cluster_a ≢ cluster_b) × (client_id ≢ [])
cluster_names = ((λ h. cc), (λ h. cc), (λ h. ground arith), (λ h. cc))

request_trip_example :
    RequestTrip
      (asked_broker cluster_a [] (1 ∷ []))
      (quiet_broker cluster_b one_worker)
      (informed 2)
      worker_id
      []
      request_envelope
      (1 ∷ [])
unfolding is_alive is_submit find_proper
request_trip_example =
    request_trip (asked_broker cluster_a [] (1 ∷ [])) (quiet_broker cluster_b one_worker)
      (informed 2) request_envelope request_frame (99 ∷ 48 ∷ 0 ∷ []) (1 ∷ []) worker_id [] [] 2
      (asked_broker-IsBroker cluster_a [] (1 ∷ []) cluster_a-IsName tt)
      (quiet_broker-IsBroker cluster_b one_worker cluster_b-IsName (worker_id-IsName, tt))
      (reports-IsClusterMap 2) request-Encodes refl refl cluster_names.3 cluster_names.0
      cluster_names.1 refl refl (omega arith) refl (omega arith) refl

answer_trip_example :
    AnswerTrip plain_doubles
      (quiet_broker cluster_a [])
      (quiet_broker cluster_b [])
      (informed 1)
      idle_worker
      waiting_client
      7
      foreign_frame
      ones
unfolding is_alive
answer_trip_example =
    answer_trip plain_doubles (quiet_broker cluster_a []) (quiet_broker cluster_b []) (informed 1)
      idle_worker waiting_client foreign_envelope foreign_frame ones
      (quiet_broker-IsBroker cluster_a [] cluster_a-IsName tt)
      (quiet_broker-IsBroker cluster_b [] cluster_b-IsName tt) (reports-IsClusterMap 1)
      worker_id-IsName foreign-Encodes refl refl refl cluster_names.2 (omega arith) length-ones

rejection_trip_example :
    RejectionTrip plain_doubles
      (asked_broker cluster_a [] (1 ∷ []))
      (informed 0)
      waiting_client
      7
      (1 ∷ [])
unfolding is_alive is_submit find_proper
rejection_trip_example =
    rejection_trip plain_doubles (asked_broker cluster_a [] (1 ∷ [])) (informed 0) waiting_client
      request_envelope request_frame (99 ∷ 48 ∷ 0 ∷ []) (1 ∷ []) [] []
      (asked_broker-IsBroker cluster_a [] (1 ∷ []) cluster_a-IsName tt) (reports-IsClusterMap 0)
      request-Encodes refl refl refl cluster_names.3 cluster_names.0 refl refl refl
