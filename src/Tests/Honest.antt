-- ===== src/Tests/Honest.antt =====
-- What the broker of a small cluster says, at the end of a client's first request.
use sim_tools.Base.{update, ◌≡◌, refl, length, All, arith}
use sim_tools.Base.Bytes.{bytes_eq, le_bytes, from_le}
use sim_tools.Core.Text.{string_to_zmq_msg, zmq_msg_to_string, copy_string_to_buffer, c_string}
use sim_tools.Core.Types.{default_meta, type_code, type_of_code, direction_code, direction_of_code}
use sim_tools.Core.Wire.{encode_meta, decode_meta, load_meta, store_meta}
use sim_tools.Core.Address.{put_from_cluster_id, put_from_id, put_to_cluster_id, put_to_id}
use sim_tools.Core.Doubles.{load_request, doubles_of, zero_bytes, sum_from}
use sim_tools.Cluster.Broker.{
  is_alive, make_broker, poll_round, route_local_reply, route_local_request, forward_request,
  forward_reply, reply_local,
}
use sim_tools.Cluster.Worker.{identity, make_worker, process}
use sim_tools.Cluster.Config.{worker_name, decimal}
use sim_tools.Floor.Run.{Floor, later, serve, work, report}
use sim_tools.Floor.Reachable.{ledger}
use sim_tools.Floor.Honest.{IsHonest, Reach-IsHonest}
use sim_tools.Tests.Data.{plain_doubles, cluster_a, cluster_a-IsName, request_frame}
use sim_tools.Tests.Floor.{
  has_input, has_input_sound, result, no_worker, Runs, after_report, served, asked_floor,
  busy_floor, busy_floor-Runs,
}

-- The worker has summed its task, the broker has heard it and has answered the client.
abbrev worked : Floor → Floor
worked s = record s {
  workers = update s.workers 0 (result no_worker (process plain_doubles (s.workers 0)));
}

answered_floor : Floor
answered_floor = served (after_report (worked busy_floor))

answered_floor-Runs : Runs answered_floor
unfolding answered_floor busy_floor asked_floor make_worker put_from_id default_meta
    copy_string_to_buffer worker_name decimal make_broker put_from_cluster_id poll_round
    route_local_reply load_meta decode_meta encode_meta type_code type_of_code is_alive
    direction_code direction_of_code identity zmq_msg_to_string c_string from_le le_bytes
    route_local_request forward_request put_to_id put_to_cluster_id store_meta request_frame
    bytes_eq string_to_zmq_msg process load_request doubles_of zero_bytes sum_from forward_reply
    reply_local
answered_floor-Runs =
    later
      (later (later busy_floor-Runs (work 0 (omega arith) refl refl))
        (report 0 (omega arith) refl refl))
      (serve refl refl)

Reach-IsHonest_example :
    All
      (IsHonest plain_doubles
        (ledger plain_doubles has_input 1 cluster_a worker_name answered_floor-Runs)
        cluster_a
        1
        worker_name)
      answered_floor.broker.log
Reach-IsHonest_example =
    Reach-IsHonest plain_doubles has_input 1 cluster_a has_input_sound (omega arith)
      cluster_a-IsName answered_floor-Runs

-- One message is on its way.
one_answer : length answered_floor.broker.log ≡ 1
unfolding answered_floor busy_floor asked_floor make_worker put_from_id default_meta
    copy_string_to_buffer worker_name decimal make_broker put_from_cluster_id poll_round
    route_local_reply load_meta decode_meta encode_meta type_code type_of_code is_alive
    direction_code direction_of_code identity zmq_msg_to_string c_string from_le le_bytes
    route_local_request forward_request put_to_id put_to_cluster_id store_meta request_frame
    bytes_eq string_to_zmq_msg process load_request doubles_of zero_bytes sum_from forward_reply
    reply_local
one_answer = refl
