-- ===== src/Tests/Data.antt =====
-- A small data center: the doubles as natural numbers, one client, two clusters and a worker.
use sim_tools.Base.{ℕ, ◌+◌, ◌%◌, ◌^◌, ◌≡◌, refl, List, [], ◌∷◌, ◌++◌, length, arith, replicate, All}
use sim_tools.Base.Bytes.{Bytes}
use sim_tools.Core.Types.{TaskMeta, IsMeta, normal_task, task_submit, type_code, direction_code}
use sim_tools.Core.Text.{c_string}
use sim_tools.Core.Names.{IsName}
use sim_tools.Core.Wire.{encode_meta}
use sim_tools.Core.Doubles.{Doubles}
use sim_tools.Core.Envelope.{Envelope, Encodes}
use sim_tools.Cluster.Broker.{Broker}
use sim_tools.Cluster.Worker.{Worker}
use sim_tools.Cluster.Client.{Client}
use sim_tools.Cluster.Routing.{IsBroker}

-- A double taken as one number in eight bytes.
abbrev pub read_first : Bytes → ℕ
read_first [] = 0
read_first (x ∷ xs) = x

abbrev pub plain_doubles : Doubles
plain_doubles = record {
  Double = ℕ;
  zero_double = 0;
  add = λ a b. a + b;
  per_mille = λ n. n;
  per_hundred = λ n. n;
  to_bytes = λ d. d ∷ replicate 7 0;
  of_bytes = read_first;
  to_bytes-length = λ d. refl;
  of_bytes-to_bytes = λ d. refl;
}

-- An array of 1024 ones.
pub ones : List ℕ
ones = replicate 1024 1

pub length-ones : length ones ≡ 1024
unfolding ones
length-ones = refl

abbrev pub client_id : Bytes
client_id = 99 ∷ 48 ∷ []

abbrev pub worker_id : Bytes
worker_id = 119 ∷ 48 ∷ []

abbrev pub cluster_a : Bytes
cluster_a = 65 ∷ []

abbrev pub cluster_b : Bytes
cluster_b = 66 ∷ []

pub client_id-IsName : IsName client_id
client_id-IsName = omega arith

pub worker_id-IsName : IsName worker_id
worker_id-IsName = omega arith

pub cluster_a-IsName : IsName cluster_a
cluster_a-IsName = omega arith

pub cluster_b-IsName : IsName cluster_b
cluster_b-IsName = omega arith

abbrev pub blank_buffer : Bytes
blank_buffer = replicate 32 0

-- A buffer that holds a name of two bytes, and one that holds a name of one byte.
abbrev pub buffer2 : ℕ → ℕ → Bytes
buffer2 x y = x ∷ y ∷ replicate 30 0

abbrev pub buffer1 : ℕ → Bytes
buffer1 x = x ∷ replicate 31 0

-- The client's request as it leaves the client.
abbrev pub request_meta : TaskMeta
request_meta = record {
  task_addr = record {
    from_cluster_id = blank_buffer;
    from_id = buffer2 99 48;
    to_cluster_id = blank_buffer;
    to_id = blank_buffer;
  };
  task_id = 7;
  task_type = normal_task;
  task_direction = task_submit;
}

abbrev pub request_envelope : Envelope
request_envelope = record {
  from_cluster = [];
  from = client_id;
  to_cluster = [];
  to = [];
  task = 7;
  kind = normal_task;
  direction = task_submit;
}

unfoldable pub request_frame : Bytes
request_frame = encode_meta request_meta

pub request_meta-IsMeta : IsMeta request_meta
unfolding type_code direction_code
request_meta-IsMeta = omega arith

pub request-Encodes : Encodes request_frame request_envelope
unfolding request_frame c_string
request-Encodes = (
  request_meta,
  refl,
  record {
    meta_ok = request_meta-IsMeta;
    from_cluster_read = refl;
    from_read = refl;
    to_cluster_read = refl;
    to_read = refl;
    task_eq = refl;
    kind_eq = refl;
    direction_eq = refl;
  },
)

-- The same request as a worker of the other cluster gets it.
abbrev pub foreign_meta : TaskMeta
foreign_meta = record request_meta {
  task_addr = record {
    from_cluster_id = buffer1 65;
    from_id = buffer2 99 48;
    to_cluster_id = buffer1 66;
    to_id = blank_buffer;
  };
}

abbrev pub foreign_envelope : Envelope
foreign_envelope = record request_envelope { from_cluster = cluster_a; to_cluster = cluster_b }

pub foreign_frame : Bytes
foreign_frame = encode_meta foreign_meta

foreign_meta-IsMeta : IsMeta foreign_meta
unfolding type_code direction_code
foreign_meta-IsMeta = omega arith

pub foreign-Encodes : Encodes foreign_frame foreign_envelope
unfolding foreign_frame c_string
foreign-Encodes = (
  foreign_meta,
  refl,
  record {
    meta_ok = foreign_meta-IsMeta;
    from_cluster_read = refl;
    from_read = refl;
    to_cluster_read = refl;
    to_read = refl;
    task_eq = refl;
    kind_eq = refl;
    direction_eq = refl;
  },
)

abbrev pub idle_worker : Worker
idle_worker = record { id = worker_id; work_counter = 0; input = []; log = [] }

abbrev pub waiting_client : Client
waiting_client = record { id = client_id; input = []; log = [] }

abbrev pub quiet_broker : Bytes → List Bytes → Broker
quiet_broker name workers = record {
  work_ready_queue = workers;
  ready_worker_count = length workers % 2 ^ 32;
  cluster_name = name;
  front_end_input = [];
  back_end_input = [];
  cloud_task_input = [];
  log = [];
}

pub quiet_broker-IsBroker :
    (name : Bytes) (workers : List Bytes)
    → IsName name
    → All IsName workers
    → IsBroker (quiet_broker name workers)
quiet_broker-IsBroker name workers n w = record { name_ok = n; workers_ok = w; count_ok = refl }

-- A broker at which the client's request has arrived.
abbrev pub asked_broker : Bytes → List Bytes → Bytes → Broker
asked_broker name workers payload = record (quiet_broker name workers) {
  front_end_input = (client_id ++ 0 ∷ []) ∷ request_frame ∷ payload ∷ [];
}

pub asked_broker-IsBroker :
    (name : Bytes) (workers : List Bytes) (payload : Bytes)
    → IsName name
    → All IsName workers
    → IsBroker (asked_broker name workers payload)
asked_broker-IsBroker name workers payload n w = record {
  name_ok = n;
  workers_ok = w;
  count_ok = refl;
}
