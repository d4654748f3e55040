-- ===== src/Tests/Lifecycle.antt =====
-- A task that stops within a round, one that does not, and a cluster of one client that does not.
use sim_tools.Base.{◌+◌, ◌≤◌, ◌≡◌, refl, some, true, false, List, [], ◌∷◌, ◌++◌, inl}
use sim_tools.Base.Outcome.{done, blocked}
use sim_tools.Lifecycle.Tasks.{
  at_test, in_round, while_running, while_true, AsyncRun, start_task, wait, raise_flag, stop_task,
  turns, Turn, balancer_turn, client_turn,
}
use sim_tools.Lifecycle.Stopping.{stop_task-joins, stop_task-blocks}

-- The round waits for two turns, and returns in the third.
stop_task-joins_example :
    (t u : AsyncRun) × (wait (
        turns ((false ∷ false ∷ []) ++ true ∷ false ∷ []) (
          raise_flag (record {
            loop = while_running;
            task_handle = some in_round;
            stop_flag = false;
            rounds = 3;
          })))
      ≡ done t)
    × (t.rounds ≤ 3 + 1)
    × (start_task t ≡ done u)
    × ((turns (true ∷ true ∷ []) u).rounds ≡ t.rounds)
stop_task-joins_example =
    stop_task-joins in_round 3 (false ∷ false ∷ []) false [] (true ∷ true ∷ [])

abbrev endless_task : AsyncRun
endless_task = record {
  loop = while_true;
  task_handle = some at_test;
  stop_flag = false;
  rounds = 0;
}

stop_task-blocks_example :
    (stop_task (turns (true ∷ []) endless_task) ≡ blocked)
    × (wait (turns (true ∷ true ∷ []) (raise_flag (turns (true ∷ []) endless_task))) ≡ blocked)
stop_task-blocks_example =
    stop_task-blocks endless_task (true ∷ []) (true ∷ true ∷ [])
      (record { endless = refl; inside = inl refl })

abbrev some_turns : List Turn
some_turns = client_turn true 0 ∷ balancer_turn false ∷ client_turn false 0 ∷ []
