-- ===== src/Tests/Floor.antt =====
-- A cluster at work, at concrete inputs: one worker, from its start to its first task.
use sim_tools.Base.{
  update, ◌≤◌, ◌≡◌, refl, ◌≢◌, Bool, true, false, List, [], ◌∷◌, ◌++◌, length, arith,
}
use sim_tools.Base.Bytes.{Bytes, bytes_eq, le_bytes, from_le}
use sim_tools.Base.Outcome.{Outcome, done, blocked, fault, thrown}
use sim_tools.Core.Text.{string_to_zmq_msg, zmq_msg_to_string, copy_string_to_buffer, c_string}
use sim_tools.Core.Types.{default_meta, type_code, type_of_code, direction_code, direction_of_code}
use sim_tools.Core.Wire.{encode_meta, decode_meta, load_meta, store_meta}
use sim_tools.Core.Address.{put_from_cluster_id, put_from_id, put_to_cluster_id, put_to_id}
use sim_tools.Core.Envelope.{Envelope, Encodes}
use sim_tools.Cluster.Broker.{
  Broker, Sent, is_alive, make_broker, poll_round, route_local_reply, route_local_request, arrive,
  forward_request,
}
use sim_tools.Cluster.Worker.{Worker, identity, make_worker, process}
use sim_tools.Cluster.Config.{worker_name, decimal}
use sim_tools.Cluster.Answers.{make_worker-signal}
use sim_tools.Cluster.Naming.{AllDistinct, worker_name-IsName}
use sim_tools.Floor.Run.{Floor, Reach, start, later, serve, carry, report, ask, hand}
use sim_tools.Floor.Safety.{
  poll_round-returns, queue_exact, ready-rests, nobody_lost, process-returns,
}
use sim_tools.Floor.Drain.{OwnMoves, IsAtRest}
use sim_tools.Floor.Rest.{comes_to_rest}
use sim_tools.Tests.Data.{
  plain_doubles, cluster_a, cluster_a-IsName, client_id, request_frame, request-Encodes,
  request_envelope,
}
use mathlib.Core.List.{Memᴰ}

-- A poll that sees what has come in.
abbrev pub has_input : List Bytes → Bool
has_input [] = false
has_input (f ∷ fs) = true

pub has_input_sound : (fs : List Bytes) → has_input fs ≡ true → fs ≢ []
has_input_sound [] up none = absurd (cc)
has_input_sound (f ∷ fs) up none = absurd (cc)

has_input_complete : (fs : List Bytes) → fs ≢ [] → has_input fs ≡ true
has_input_complete [] some_input = absurd (some_input refl)
has_input_complete (f ∷ fs) some_input = refl

abbrev pub result {ℓ} : {A : Type ℓ} → A → Outcome A → A
result a (done x) = x
result a blocked = a
result a fault = a
result a thrown = a

abbrev pub no_broker : Broker
no_broker = record {
  work_ready_queue = [];
  ready_worker_count = 0;
  cluster_name = [];
  front_end_input = [];
  back_end_input = [];
  cloud_task_input = [];
  log = [];
}

abbrev pub no_worker : Worker
no_worker = record { id = []; work_counter = 0; input = []; log = [] }

abbrev new_floor : Floor
new_floor = record {
  broker = result no_broker (make_broker cluster_a);
  workers = λ i. result no_worker (make_worker (worker_name i));
}

abbrev pub Runs : Floor → Type 0
Runs s = Reach plain_doubles has_input 1 cluster_a worker_name s

new_floor-Runs : Runs new_floor
unfolding make_broker put_from_cluster_id default_meta copy_string_to_buffer
new_floor-Runs = start refl (λ i _.
    let (g, enc, e) = make_worker-signal (worker_name i) (worker_name-IsName i) in rw e refl)

abbrev pub after_report : Floor → Floor
after_report s = record {
  broker = arrive s.broker (record {
    back = identity (s.workers 0).id ∷ (result [] (first (s.workers 0).log));
    front = [];
    cloud = [];
  });
  workers = update s.workers 0 (record (s.workers 0) { log = rest (s.workers 0).log });
}
  where
    first : List (List Bytes) → Outcome (List Bytes)
    first [] = blocked
    first (x ∷ xs) = done x

    rest : List (List Bytes) → List (List Bytes)
    rest [] = []
    rest (x ∷ xs) = xs

abbrev heard_floor : Floor
heard_floor = after_report new_floor

heard_floor-Runs : Runs heard_floor
unfolding make_worker put_from_id default_meta copy_string_to_buffer worker_name decimal
heard_floor-Runs = later new_floor-Runs (report 0 (omega arith) refl refl)

abbrev pub served : Floor → Floor
served s = record s { broker = result no_broker (poll_round has_input s.broker) }

abbrev ready_floor : Floor
ready_floor = served heard_floor

ready_floor-Runs : Runs ready_floor
unfolding make_worker put_from_id default_meta copy_string_to_buffer worker_name decimal make_broker
    put_from_cluster_id poll_round route_local_reply load_meta decode_meta encode_meta type_code
    type_of_code is_alive direction_code direction_of_code identity zmq_msg_to_string c_string
    from_le le_bytes
ready_floor-Runs = later heard_floor-Runs (serve refl refl)

-- The worker is ready, and a client asks.
unfoldable pub asked_floor : Floor
asked_floor = record ready_floor {
  broker =
      arrive ready_floor.broker
        (record { back = []; front = (client_id ++ 0 ∷ []) ∷ request_frame ∷ [] ∷ []; cloud = [] });
}

asked_floor-Runs : Runs asked_floor
unfolding asked_floor
asked_floor-Runs = later ready_floor-Runs (
    ask (record { envelope = request_envelope; payload = [] } ∷ []) _
      (client_id ++ 0 ∷ [], request_frame, [], refl, request-Encodes, refl) (omega arith, tt) refl)

abbrev carried : Floor → Floor
carried s = go s.broker.log
  where
    go : List Sent → Floor
    go [] = s
    go (m ∷ rest) = record {
      broker = record s.broker { log = rest };
      workers = λ i. hand m (s.workers i);
    }

-- The broker has given the worker the client's task.
unfoldable pub busy_floor : Floor
busy_floor = carried (carried (served asked_floor))

pub busy_floor-Runs : Runs busy_floor
unfolding busy_floor asked_floor make_worker put_from_id default_meta copy_string_to_buffer
    worker_name decimal make_broker put_from_cluster_id poll_round route_local_reply load_meta
    decode_meta encode_meta type_code type_of_code is_alive direction_code direction_of_code
    identity zmq_msg_to_string c_string from_le le_bytes route_local_request forward_request
    put_to_id put_to_cluster_id store_meta request_frame bytes_eq
busy_floor-Runs =
    later (later (later asked_floor-Runs (serve refl refl)) (carry refl refl)) (carry refl refl)

poll_round-returns_example : (b : Broker) × (poll_round has_input asked_floor.broker ≡ done b)
poll_round-returns_example =
    poll_round-returns plain_doubles has_input 1 cluster_a has_input_sound (omega arith)
      cluster_a-IsName asked_floor-Runs

queue_exact_example :
    AllDistinct ready_floor.broker.work_ready_queue
    × (length ready_floor.broker.work_ready_queue ≤ 1)
queue_exact_example =
    queue_exact plain_doubles has_input 1 cluster_a has_input_sound (omega arith) cluster_a-IsName
      ready_floor-Runs

ready-rests_example : ((ready_floor.workers 0).input ≡ []) × ((ready_floor.workers 0).log ≡ [])
unfolding make_worker put_from_id default_meta copy_string_to_buffer worker_name decimal make_broker
    put_from_cluster_id poll_round route_local_reply load_meta decode_meta encode_meta type_code
    type_of_code is_alive direction_code direction_of_code identity zmq_msg_to_string c_string
    from_le le_bytes
ready-rests_example =
    ready-rests plain_doubles has_input 1 cluster_a has_input_sound (omega arith) cluster_a-IsName
      ready_floor-Runs 0 (omega arith) (Memᴰ.head refl)

-- The broker's signal has been carried on: nothing is on its way.
abbrev still_floor : Floor
still_floor = carried ready_floor

still_floor-Runs : Runs still_floor
unfolding make_worker put_from_id default_meta copy_string_to_buffer worker_name decimal make_broker
    put_from_cluster_id poll_round route_local_reply load_meta decode_meta encode_meta type_code
    type_of_code is_alive direction_code direction_of_code identity zmq_msg_to_string c_string
    from_le le_bytes
still_floor-Runs = later ready_floor-Runs (carry refl refl)

nobody_lost_example : Memᴰ (worker_name 0) still_floor.broker.work_ready_queue
unfolding make_worker put_from_id default_meta copy_string_to_buffer worker_name decimal make_broker
    put_from_cluster_id poll_round route_local_reply load_meta decode_meta encode_meta type_code
    type_of_code is_alive direction_code direction_of_code identity zmq_msg_to_string c_string
    from_le le_bytes
nobody_lost_example =
    nobody_lost plain_doubles has_input 1 cluster_a has_input_sound (omega arith) cluster_a-IsName
      still_floor-Runs 0 (omega arith) refl refl refl refl

busy : (busy_floor.workers 0).input ≢ []
unfolding busy_floor asked_floor make_worker put_from_id default_meta copy_string_to_buffer
    worker_name decimal make_broker put_from_cluster_id poll_round route_local_reply load_meta
    decode_meta encode_meta type_code type_of_code is_alive direction_code direction_of_code
    identity zmq_msg_to_string c_string from_le le_bytes route_local_request forward_request
    put_to_id put_to_cluster_id store_meta request_frame bytes_eq string_to_zmq_msg
busy none = absurd (cc)

process-returns_example :
    (w : Worker) × (e : Envelope) × (f sum : Bytes) × (process plain_doubles (busy_floor.workers 0)
      ≡ done w)
    × (w.input ≡ [])
    × (w.log ≡ (f ∷ sum ∷ []) ∷ [])
    × Encodes f e
    × (e.from ≡ worker_name 0)
process-returns_example =
    process-returns plain_doubles has_input 1 cluster_a has_input_sound (omega arith)
      cluster_a-IsName busy_floor-Runs 0 (omega arith) busy

comes_to_rest_example :
    (t : Floor) × OwnMoves plain_doubles has_input 1 cluster_a worker_name busy_floor t
    × IsAtRest plain_doubles has_input 1 cluster_a worker_name t
comes_to_rest_example =
    comes_to_rest plain_doubles has_input 1 cluster_a has_input_sound has_input_complete
      (omega arith) cluster_a-IsName busy_floor busy_floor-Runs
