-- ===== src/Balance/Worker.antt =====
-- Worker of load_balance.cpp: it signals that it is alive, and answers one task at a time.
use sim_tools.Base.{ℕ, ◌+◌, ◌%◌, ◌^◌, List, [], ◌∷◌, ◌++◌}
use sim_tools.Base.Bytes.{Bytes}
use sim_tools.Base.Outcome.{Outcome, done, ◌>>=◌, recv}
use sim_tools.Core.Text.{string_to_zmq_msg, zmq_msg_to_string}
use sim_tools.Core.Doubles.{Doubles, sum_from}
use sim_tools.Balance.Broker.{worker_alive}
use sim_tools.Balance.Tasks.{Task, TaskResult, load_task, encode_result}

-- `old_task` is what the variable that receives a task holds, and the log what is sent.
pub record BalanceWorker : Type 0 where
  pub id : Bytes
  pub old_task : Bytes
  pub work_counter : ℕ  -- std::atomic<uint32_t>
  pub input : List Bytes
  pub log : List (List Bytes)

-- The constructor.
unfoldable pub make_balance_worker : Bytes → Bytes → BalanceWorker
make_balance_worker id old_task = record {
  id = id;
  old_task = old_task;
  work_counter = 0;
  input = [];
  log = (string_to_zmq_msg worker_alive ∷ []) ∷ [];
}

module _ (D : Doubles) where
  unfoldable pub sum_task : Task D.Double → TaskResult D.Double
  sum_task t = record { tag = t.tag; sum = sum_from D D.zero_double t.arr }

  unfoldable pub process_imp : BalanceWorker → Outcome BalanceWorker
  process_imp w = do
    (client_id_msg, rest1) ← recv w.input
    (task_msg, rest2) ← recv rest1
    client_id ← zmq_msg_to_string client_id_msg
    task ← load_task D w.old_task task_msg
    done (record w {
      input = rest2;
      log = w.log ++ (client_id_msg ∷ encode_result D (sum_task task) ∷ []) ∷ [];
      work_counter = (w.work_counter + 1) % 2 ^ 32;
    })
