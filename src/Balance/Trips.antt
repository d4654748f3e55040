-- ===== src/Balance/Trips.antt =====
-- What a client draws, and what a worker makes of it.
use sim_tools.Base.{
  ℕ, zero, suc, ◌+◌, ◌%◌, ◌^◌, ◌≤◌, ◌≡◌, refl, ap, List, [], ◌∷◌, ◌++◌, length, arith,
}
use sim_tools.Base.Bytes.{Bytes}
use sim_tools.Base.Outcome.{done}
use sim_tools.Core.Text.{string_to_zmq_msg}
use sim_tools.Core.Names.{zmq_msg-roundtrip}
use sim_tools.Core.Doubles.{Doubles}
use sim_tools.Balance.Tasks.{Task, IsTag, encode_task, encode_result, load_task-encode_task}
use sim_tools.Balance.Worker.{BalanceWorker, process_imp, sum_task}
use sim_tools.Balance.Client.{gen_task, gen_elements}

-- What the client has drawn is a task whose number is in range.
abbrev pub AreDraws : (ℕ → ℕ) → Type 0
AreDraws draw = (i : ℕ) → draw i ≤ 1000

module _ (D : Doubles) where
  length-gen_elements : (n : ℕ) (draw : ℕ → ℕ) → length (gen_elements D n draw) ≡ n
  unfolding gen_elements
  length-gen_elements zero draw = refl
  length-gen_elements (suc n) draw = ap suc (length-gen_elements n (λ i. draw (suc i)))

  pub gen_task-ok :
      (draw : ℕ → ℕ)
      → AreDraws draw
      → IsTag (gen_task D draw).tag × (length (gen_task D draw).arr ≡ 1024)
  unfolding gen_task
  gen_task-ok draw h = (omega (arith, h 1024), length-gen_elements 1024 draw)

  pub sum_task_tag : (t : Task D.Double) → IsTag t.tag → IsTag (sum_task D t).tag
  unfolding sum_task
  sum_task_tag t ok = ok

  -- A worker answers a task's frames with the task's tag and the sum of its array.
  pub process_imp-sum :
      (w : BalanceWorker) (client : Bytes) (t : Task D.Double) (rest : List Bytes)
      → length w.old_task ≡ 8208
      → IsTag t.tag
      → length t.arr ≡ 1024
      → w.input ≡ string_to_zmq_msg client ∷ encode_task D t ∷ rest
      → process_imp D w
        ≡ done (record w {
          input = rest;
          log = w.log ++ (string_to_zmq_msg client ∷ encode_result D (sum_task D t) ∷ []) ∷ [];
          work_counter = (w.work_counter + 1) % 2 ^ 32;
        })
  unfolding process_imp
  process_imp-sum w client t rest l tag size h =
      rw (h, zmq_msg-roundtrip client, load_task-encode_task D w.old_task t l tag size) refl
