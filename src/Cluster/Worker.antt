-- ===== src/Cluster/Worker.antt =====
-- Worker of cluster_broker.cpp: it signals that it is alive, and answers one task at a time.
use sim_tools.Base.{ℕ, zero, suc, ◌+◌, ◌%◌, ◌^◌, List, [], ◌∷◌, ◌++◌}
use sim_tools.Base.Bytes.{Bytes}
use sim_tools.Base.Outcome.{Outcome, done, ◌>>=◌, recv}
use sim_tools.Core.Types.{default_meta, alive_signal, task_reply}
use sim_tools.Core.Text.{string_to_zmq_msg, c_string}
use sim_tools.Core.Wire.{load_meta, encode_meta}
use sim_tools.Core.Address.{put_from_id, put_to_id}
use sim_tools.Core.Doubles.{Doubles, load_request, sum_from}

-- The log holds the multipart messages sent to the broker.
pub record Worker : Type 0 where
  pub id : Bytes
  pub work_counter : ℕ  -- std::atomic<uint32_t>
  pub input : List Bytes
  pub log : List (List Bytes)

-- The constructor. The socket's identity is the id with its NUL.
unfoldable pub identity : Bytes → Bytes
identity id = id ++ 0 ∷ []

unfoldable pub make_worker : Bytes → Outcome Worker
make_worker id = do
  meta ← put_from_id default_meta id
  let signal = record meta { task_direction = task_reply; task_type = alive_signal }
  done (record {
    id = id;
    work_counter = 0;
    input = [];
    log = (encode_meta signal ∷ string_to_zmq_msg [] ∷ []) ∷ [];
  })

module _ (D : Doubles) where
  unfoldable pub process : Worker → Outcome Worker
  process w = do
    (meta_msg, rest1) ← recv w.input
    (task_msg, rest2) ← recv rest1
    meta ← load_meta meta_msg
    task_req ← load_request D task_msg
    client_id ← c_string meta.task_addr.from_id
    m1 ← put_to_id meta client_id
    m2 ← put_from_id m1 w.id
    let answer = encode_meta (record m2 { task_direction = task_reply })
    let sum = sum_from D D.zero_double task_req
    done (record w {
      input = rest2;
      log = w.log ++ (answer ∷ D.to_bytes sum ∷ []) ∷ [];
      work_counter = (w.work_counter + 1) % 2 ^ 32;
    })

  -- runTask, for the rounds until stopTask_ is set.
  unfoldable pub run_worker : ℕ → Worker → Outcome Worker
  run_worker zero w = done w
  run_worker (suc rounds) w = process w >>= λ w'. run_worker rounds w'
