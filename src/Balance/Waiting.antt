-- ===== src/Balance/Waiting.antt =====
-- The loop of BalanceBroker::serve, up to the poll at which it waits.
use sim_tools.Base.{ℕ, zero, suc, ◌≤◌, ◌≡◌, refl, inl, inr, Bool, true, false, List, [], ◌∷◌, arith}
use sim_tools.Base.Bytes.{Bytes}
use sim_tools.Base.Outcome.{done}
use sim_tools.Balance.Broker.{or_wait, balance_serve}
use sim_tools.Balance.Dispatching.{Word, Wish, Act, State, ◌⟶*◌, stop, joined, broker_at, IsProper}
use sim_tools.Balance.Order.{turns, tasks, results, steps-order}
use sim_tools.Balance.Rounds.{as_steps, state, unread, IsWaiting, balance_round-Moves}

-- With nothing unread the broker waits.
idle_waits :
    (q : List Bytes) (words : List Word) (wishes : List Wish) (acts : List Act)
    → unread (state q words wishes acts) ≤ 0
    → IsWaiting (state q words wishes acts)
idle_waits q [] [] acts h = (refl, inr refl)
idle_waits q [] (w ∷ wishes) acts h = absurd (omega arith)
idle_waits q (w ∷ words) wishes acts h = absurd (omega arith)

-- The loop has come to a poll at which it waits.
pub record Waits (pollin : List Bytes → Bool) (n : ℕ) (s : State) : Type 0 where
  pub last : State
  pub returns : balance_serve pollin n (broker_at s) ≡ done (broker_at last)
  pub steps : s ⟶* last
  pub waiting : IsWaiting last

module _ (pollin : List Bytes → Bool)
    (hears : (f : Bytes) (fs : List Bytes) → pollin (f ∷ fs) ≡ true)
    (silent : pollin [] ≡ false) where
  -- In as many rounds as there are messages the loop comes to wait, without a fault, and then no
  -- worker's message is unread, and no task is unread while a worker is ready.
  pub balance_serve-Waits : (n : ℕ) (s : State) → IsProper s → unread s ≤ n → Waits pollin n s
  unfolding balance_serve or_wait
  balance_serve-Waits zero s ok h = record {
    last = s;
    returns = refl;
    steps = stop;
    waiting = idle_waits s.queue s.words s.wishes s.acts h;
  }
  balance_serve-Waits (suc n) s ok h = elim (balance_round-Moves pollin hears silent s ok) [
    | inl quiet ↦ record { last = s; returns = rw quiet.0 refl; steps = stop; waiting = quiet.1 }
    | inr m ↦
        (let rest = balance_serve-Waits n m.next m.proper (omega (arith, m.fewer)) in
          record {
            last = rest.last;
            returns = rw m.returns rest.returns;
            steps = joined (as_steps m.steps) rest.steps;
            waiting = rest.waiting;
          })
  ]

  -- Workers get their turns in the order in which they became ready, tasks are handed over in the
  -- order in which they came, and each result goes to its client.
  pub balance_serve-order :
      (n : ℕ) (s : State)
      → IsProper s
      → unread s ≤ n
      → (t : State) × (balance_serve pollin n (broker_at s) ≡ done (broker_at t))
        × IsWaiting t
        × (turns s ≡ turns t)
        × (tasks s ≡ tasks t)
        × (results s ≡ results t)
  balance_serve-order n s ok h =
      let w = balance_serve-Waits n s ok h in
      let (a, b, c) = steps-order w.steps in (w.last, w.returns, w.waiting, a, b, c)
