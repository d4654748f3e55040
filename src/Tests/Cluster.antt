-- ===== src/Tests/Cluster.antt =====
-- The handlers of a cluster's broker, the worker and the client at concrete inputs.
use sim_tools.Base.{◌≡◌, refl, ◌≢◌, Bool, true, false, List, [], ◌∷◌, arith}
use sim_tools.Base.Bytes.{Bytes}
use sim_tools.Cluster.Broker.{
  Broker, Arrivals, route_local_request, route_local_reply, route_cloud, run_task,
}
use sim_tools.Cluster.Balancer.{request, reply, from_cloud}
use sim_tools.Cluster.Routing.{IsBroker, Performs}
use sim_tools.Cluster.Refinement.{
  route_local_request-Performs, route_local_reply-Performs, route_cloud-Performs,
}
use sim_tools.Cluster.Traffic.{Routed, Dealt}
use sim_tools.Cluster.Loop.{Serves, Anything, run_task-serves}
use sim_tools.Tests.Data.{
  worker_id, worker_id-IsName, cluster_a, cluster_b, cluster_a-IsName, cluster_b-IsName,
  request_frame, request_envelope, request-Encodes, foreign_frame, foreign_envelope,
  foreign-Encodes, quiet_broker, quiet_broker-IsBroker, asked_broker, asked_broker-IsBroker,
}

abbrev one_worker : List Bytes
one_worker = worker_id ∷ []

route_local_request-Performs_example :
    Performs
      (route_local_request (asked_broker cluster_a one_worker (5 ∷ [])))
      (quiet_broker cluster_a one_worker)
      (request cluster_a one_worker request_envelope (5 ∷ []))
route_local_request-Performs_example =
    route_local_request-Performs (asked_broker cluster_a one_worker (5 ∷ []))
      (asked_broker-IsBroker cluster_a one_worker (5 ∷ []) cluster_a-IsName (worker_id-IsName, tt))
      request_envelope request_frame (5 ∷ []) request-Encodes (99 ∷ 48 ∷ 0 ∷ []) [] refl

-- A broker of cluster B to which a worker and the super broker have sent a task of cluster A.
abbrev reached_broker : Broker
reached_broker = record (quiet_broker cluster_b one_worker) {
  back_end_input = (119 ∷ 49 ∷ 0 ∷ []) ∷ foreign_frame ∷ (6 ∷ []) ∷ [];
  cloud_task_input = foreign_frame ∷ (5 ∷ []) ∷ [];
}

reached_broker-IsBroker : IsBroker reached_broker
reached_broker-IsBroker = record {
  name_ok = cluster_b-IsName;
  workers_ok = (worker_id-IsName, tt);
  count_ok = refl;
}

route_local_reply-Performs_example :
    Performs
      (route_local_reply reached_broker)
      (record reached_broker { back_end_input = [] })
      (reply cluster_b one_worker foreign_envelope (6 ∷ []))
route_local_reply-Performs_example =
    route_local_reply-Performs reached_broker reached_broker-IsBroker foreign_envelope foreign_frame
      (6 ∷ []) foreign-Encodes (119 ∷ 49 ∷ 0 ∷ []) [] refl

route_cloud-Performs_example :
    Performs
      (route_cloud reached_broker)
      (record reached_broker { cloud_task_input = [] })
      (from_cloud one_worker foreign_envelope (5 ∷ []))
route_cloud-Performs_example =
    route_cloud-Performs reached_broker reached_broker-IsBroker foreign_envelope foreign_frame
      (5 ∷ []) foreign-Encodes [] refl (omega arith)

-- zmq::poll, as a test for a frame.
some_frame : List Bytes → Bool
some_frame [] = false
some_frame (f ∷ fs) = true

some_frame_sound : (fs : List Bytes) → some_frame fs ≡ true → fs ≢ []
unfolding some_frame
some_frame_sound [] h = λ e. cc
some_frame_sound (f ∷ fs) h = λ e. cc

abbrev one_round : List Arrivals
one_round =
    record {
      back = [];
      front = (99 ∷ 48 ∷ 0 ∷ []) ∷ request_frame ∷ (5 ∷ []) ∷ [];
      cloud = foreign_frame ∷ (5 ∷ []) ∷ [];
    }
    ∷ []

run_task-serves_example :
    Serves (run_task some_frame (quiet_broker cluster_b one_worker) one_round) 1 Anything
run_task-serves_example =
    run_task-serves some_frame some_frame_sound (quiet_broker cluster_b one_worker) one_round 1
      (
        (
          Routed.none_left,
          Routed.message request-Encodes Routed.none_left,
          Dealt.message foreign-Encodes Dealt.none_left,
        ),
        tt,
      )
      (record {
        broker_ok =
            quiet_broker-IsBroker cluster_b one_worker cluster_b-IsName (worker_id-IsName, tt);
        back_ok = Routed.none_left;
        front_ok = Routed.none_left;
        cloud_ok = Dealt.none_left;
        room = omega arith;
      })
