-- ===== src/Lifecycle/Stopping.antt =====
-- How tasks stop, and that OneCluster's do not.
use sim_tools.Base.{
  ℕ, ◌+◌, ◌≤◌, ◌≡◌, refl, Bool, true, false, Option, none, subst, sym, some, List, [], ◌∷◌, ◌++◌,
  All, ◌⊎◌, inl, inr, arith,
}
use sim_tools.Base.Outcome.{Outcome, done, blocked}
use sim_tools.Lifecycle.Tasks.{
  Place, at_test, in_round, at_end, Loop, while_running, while_true, AsyncRun, start_task, wait,
  raise_flag, stop_task, goes_on, turn, turns, ClusterTasks,
}

module _ (r : ℕ) where
  -- A task that has been told to stop, and whose loop tests the flag.
  abbrev stopped_at : Place → AsyncRun
  stopped_at p = record { loop = while_running; task_handle = some p; stop_flag = true; rounds = r }

  turns-at_end : (xs : List Bool) → turns xs (stopped_at at_end) ≡ stopped_at at_end
  unfolding turns turn
  turns-at_end [] = refl
  turns-at_end (x ∷ xs) = turns-at_end xs

  turns-at_test :
      (x : Bool) (xs : List Bool) → turns (x ∷ xs) (stopped_at at_test) ≡ stopped_at at_end
  unfolding turns turn goes_on
  turns-at_test x xs = turns-at_end xs

restarted-rounds : (xs : List Bool) (r : ℕ) → (turns xs (stopped_at r at_test)).rounds ≡ r
unfolding turns
restarted-rounds [] r = refl
restarted-rounds (x ∷ xs) r = rw (turns-at_test r x xs) refl

abbrev gone : ℕ → AsyncRun
gone r = record { loop = while_running; task_handle = none; stop_flag = true; rounds = r }

-- Once the round that a stopped task is in has returned, its thread is out of the loop a turn later.
abbrev EndsBy : ℕ → AsyncRun → Type 0
EndsBy r t = (m : ℕ) × (t ≡ stopped_at m at_end) × (m ≤ r + 1)

turns-EndsBy :
    (p : Place) (r : ℕ) (xs : List Bool) (x : Bool) (ys : List Bool)
    → EndsBy r (turns (xs ++ true ∷ x ∷ ys) (stopped_at r p))
unfolding turns turn goes_on
turns-EndsBy at_end r xs x ys = (r, turns-at_end r (xs ++ true ∷ x ∷ ys), omega arith)
turns-EndsBy at_test r [] x ys = (r, turns-at_end r (x ∷ ys), omega arith)
turns-EndsBy at_test r (z ∷ xs) x ys = (r, turns-at_end r (xs ++ true ∷ x ∷ ys), omega arith)
turns-EndsBy in_round r [] x ys = (r + 1, turns-at_test (r + 1) x ys, omega arith)
turns-EndsBy in_round r (true ∷ []) x ys = (r + 1, turns-at_end (r + 1) (x ∷ ys), omega arith)
turns-EndsBy in_round r (true ∷ z ∷ xs) x ys =
    (r + 1, turns-at_end (r + 1) (xs ++ true ∷ x ∷ ys), omega arith)
turns-EndsBy in_round r (false ∷ xs) x ys = turns-EndsBy in_round r xs x ys

-- A task whose loop tests the flag, and which has been told to stop: after any turns of its thread, once
-- there was one in which the call that a round waits in returns, if the thread is in a round, and then
-- one more, the join returns, and the task has done at most the round that it was in. If the task is
-- started again, it does no round, however many turns it gets.
pub stop_task-joins :
    (p : Place) (r : ℕ) (waited : List Bool) (x : Bool) (more again : List Bool)
    → (t u : AsyncRun) × (wait (
          turns (waited ++ true ∷ x ∷ more) (
            raise_flag (record {
              loop = while_running;
              task_handle = some p;
              stop_flag = false;
              rounds = r;
            })))
        ≡ done t)
      × (t.rounds ≤ r + 1)
      × (start_task t ≡ done u)
      × ((turns again u).rounds ≡ t.rounds)
unfolding start_task wait
stop_task-joins p r waited x more again =
    let (m, ended, bound) = turns-EndsBy p r waited x more in
    (gone m, stopped_at m at_test, rw ended refl, bound, refl, restarted-rounds again m)

-- The balancing broker's task: its thread is in the loop, at the test or in a round.
pub record IsEndless (t : AsyncRun) : Type 0 where
  pub endless : t.loop ≡ while_true
  pub inside : (t.task_handle ≡ some at_test) ⊎ (t.task_handle ≡ some in_round)

turn-IsEndless_at :
    (x : Bool) (p : Option Place) (flag : Bool) (r : ℕ)
    → (p ≡ some at_test) ⊎ (p ≡ some in_round)
    → IsEndless
        (turn x (record { loop = while_true; task_handle = p; stop_flag = flag; rounds = r }))
unfolding turn goes_on
turn-IsEndless_at x none flag r h = absurd (elim h [ inl e ↦ cc | inr e ↦ cc ])
turn-IsEndless_at x (some at_test) flag r h = record { endless = refl; inside = inr refl }
turn-IsEndless_at true (some in_round) flag r h = record { endless = refl; inside = inl refl }
turn-IsEndless_at false (some in_round) flag r h = record { endless = refl; inside = inr refl }
turn-IsEndless_at x (some at_end) flag r h = absurd (elim h [ inl e ↦ cc | inr e ↦ cc ])

turn-IsEndless : (x : Bool) (t : AsyncRun) → IsEndless t → IsEndless (turn x t)
turn-IsEndless x t h =
    subst (λ l. IsEndless (turn x (record t { loop = l }))) (sym h.endless)
      (turn-IsEndless_at x t.task_handle t.stop_flag t.rounds h.inside)

turns-IsEndless : (xs : List Bool) (t : AsyncRun) → IsEndless t → IsEndless (turns xs t)
unfolding turns
turns-IsEndless [] t h = h
turns-IsEndless (x ∷ xs) t h = turns-IsEndless xs (turn x t) (turn-IsEndless x t h)

wait-IsEndless : (t : AsyncRun) → IsEndless t → wait t ≡ blocked
unfolding wait
wait-IsEndless t h = elim h.inside [ inl here ↦ rw here refl | inr here ↦ rw here refl ]

-- A task whose loop does not test the flag, as the balancing broker's, once it has been started: after
-- any turns of its thread, stopTask waits, and so does the join after any further turns, however many
-- of its rounds return.
pub stop_task-blocks :
    (t : AsyncRun) (before after : List Bool)
    → IsEndless t
    → (stop_task (turns before t) ≡ blocked)
      × (wait (turns after (raise_flag (turns before t))) ≡ blocked)
unfolding stop_task
stop_task-blocks t before after h =
    let now = turns-IsEndless before t h in
    let told : IsEndless (raise_flag (turns before t)) = record {
      endless = now.endless;
      inside = now.inside;
    } in
    (wait-IsEndless _ told, wait-IsEndless _ (turns-IsEndless after _ told))

-- A task that runs, and that nobody has told to stop.
pub record IsGoing (t : AsyncRun) : Type 0 where
  pub runs : (t.task_handle ≡ some at_test) ⊎ (t.task_handle ≡ some in_round)
  pub unflagged : t.stop_flag ≡ false

pub record AllGoing (c : ClusterTasks) : Type 0 where
  pub balancer_going : IsGoing c.local_balancer
  pub state_going : IsGoing c.cluster_state
  pub clients_going : All IsGoing c.clients
  pub workers_going : All IsGoing c.workers

abbrev started : Loop → AsyncRun
started l = record { loop = l; task_handle = some at_test; stop_flag = false; rounds = 0 }
