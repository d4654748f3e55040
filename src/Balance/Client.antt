-- ===== src/Balance/Client.antt =====
-- Client of load_balance.cpp: it sends a random task and waits for its result.
use sim_tools.Base.{ℕ, zero, suc, List, [], ◌∷◌, ◌++◌}
use sim_tools.Base.Bytes.{Bytes}
use sim_tools.Base.Outcome.{Outcome, done, ◌>>=◌, recv}
use sim_tools.Core.Doubles.{Doubles}
use sim_tools.Balance.Tasks.{Task, TaskResult, task_size, encode_task, load_result}

-- `old_result` is what the variable that receives a result holds.
pub record BalanceClient : Type 0 where
  pub id : Bytes
  pub old_result : Bytes
  pub input : List Bytes
  pub log : List Bytes

module _ (D : Doubles) where
  unfoldable pub gen_elements : ℕ → (ℕ → ℕ) → List D.Double
  gen_elements zero draw = []
  gen_elements (suc n) draw = D.per_hundred (draw zero) ∷ gen_elements n (λ i. draw (suc i))

  -- genTask, from the numbers drawn: first the elements, then the task's number.
  unfoldable pub gen_task : (ℕ → ℕ) → Task D.Double
  gen_task draw = record {
    tag = record { task_id = draw task_size; task_type = 1 };
    arr = gen_elements task_size draw;
  }

  -- sendRequestImp up to the send, and from the receive on.
  unfoldable pub send_imp : (ℕ → ℕ) → BalanceClient → BalanceClient
  send_imp draw c = record c { log = c.log ++ encode_task D (gen_task draw) ∷ [] }

  unfoldable pub receive_imp : BalanceClient → Outcome (BalanceClient × TaskResult D.Double)
  receive_imp c = do
    (task_result_msg, rest) ← recv c.input
    result ← load_result D c.old_result task_result_msg
    done (record c { input = rest }, result)
