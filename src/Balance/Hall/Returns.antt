-- ===== src/Balance/Hall/Returns.antt =====
-- What becomes of a round of any of main's threads.
use sim_tools.Base.{
  ℕ, ◌<◌, ◌^◌, ◌≡◌, refl, sym, ap, ◌∙◌, subst, true, false, Bool, inl, inr, ◌⊎◌, List, [], ◌∷◌,
  ◌++◌, All,
}
use sim_tools.Base.Bytes.{Bytes}
use sim_tools.Base.Outcome.{Outcome, done, blocked}
use sim_tools.Core.Text.{string_to_zmq_msg}
use sim_tools.Core.Doubles.{Doubles}
use sim_tools.Balance.Broker.{BalanceBroker, balance_round}
use sim_tools.Balance.Tasks.{TaskResult, load_result-encode_result}
use sim_tools.Balance.Worker.{BalanceWorker, process_imp, sum_task}
use sim_tools.Balance.Client.{BalanceClient, gen_task, receive_imp}
use sim_tools.Balance.Trips.{gen_task-ok, process_imp-sum, sum_task_tag}
use sim_tools.Balance.Rounds.{balance_round-Moves}
use sim_tools.Balance.Dispatching.{broker_at}
use sim_tools.Balance.Hall.{customer_name, Hall, Reach}
use sim_tools.Balance.Hall.Flight.{
  job, home, Item, parcel, spent, collect, Nothing, collect-First, placed, landed, taken, jobs_of,
  got_of, task_frame, result_frame,
}
use sim_tools.Balance.Hall.View.{state_of, IsItem, Flies, IsRunning}
use sim_tools.Balance.Hall.Cases.{jobs_of_cases, got_of_cases}
use sim_tools.Balance.Hall.Landing.{All-at}
use sim_tools.Balance.Hall.Workers.{test_self, process_imp-blocked}
use sim_tools.Balance.Hall.Customers.{receive_imp-blocked}
use sim_tools.Balance.Hall.Results.{state_of-IsProper, Reach-IsRunning}

-- It waits for a message, or succeeds.
abbrev pub WaitsOrReturns {ℓ} : {A : Type ℓ} → Outcome A → Type ℓ
WaitsOrReturns {A = A} r = (r ≡ blocked) ⊎ ((a : A) × (r ≡ done a))

module _ (D : Doubles) (n m : ℕ) (s : Hall D) (ready : List ℕ) (xs ys : List Item) (i : ℕ)
    (d : ℕ → ℕ) where
  process_job :
      (j : ℕ)
      → j < n
      → Flies n m D (xs ++ parcel i d (job j) ∷ ys) ready s
      → All (Nothing (jobs_of D j)) xs
      → (w : BalanceWorker) × (process_imp D (s.workers j) ≡ done w)
  unfolding jobs_of
  process_job j below k none =
      let it = parcel i d (job j) in
      let mine = k.works j below in
      let (client_ok, draw_ok, worker_ok) = All-at (IsItem n m) xs ys it k.items_ok in
      let (tag, size) = gen_task-ok D d draw_ok in
      let frames : jobs_of D j it ≡ string_to_zmq_msg (customer_name i) ∷ task_frame D d ∷ [] =
        rw (test_self j) refl in
      (
        _,
        process_imp-sum D (s.workers j) (customer_name i) (gen_task D d)
            (collect (jobs_of D j) (landed xs ys it spent)) mine.task_size tag size
            (mine.reads ∙ taken xs ys it spent (jobs_of D j) none frames refl),
      )

  receive_home :
      i < m
      → Flies n m D (xs ++ parcel i d home ∷ ys) ready s
      → All (Nothing (got_of D i)) xs
      → (r : BalanceClient × TaskResult D.Double) × (receive_imp D (s.customers i).client ≡ done r)
  unfolding got_of receive_imp
  receive_home below k none =
      let it = parcel i d home in
      let mine = k.serves i below in
      let (client_ok, draw_ok, nowhere) = All-at (IsItem n m) xs ys it k.items_ok in
      let (tag, size) = gen_task-ok D d draw_ok in
      let now : got_of D i it ≡ result_frame D d ∷ [] = rw (test_self i) refl in
      let input = mine.gets ∙ taken xs ys it spent (got_of D i) none now refl in
      (
        (
          record ((s.customers i).client) { input = collect (got_of D i) (landed xs ys it spent) },
          sum_task D (gen_task D d),
        ),
        rw
            (
              input,
              load_result-encode_result D (s.customers i).client.old_result
                  (sum_task D (gen_task D d)) mine.result_size (sum_task_tag D (gen_task D d) tag),
            )
            refl,
      )

module _ (D : Doubles) (n m : ℕ) (s : Hall D) (k : IsRunning n m D s) where
  process_returns :
      (j : ℕ) (frames : List Bytes)
      → j < n
      → collect (jobs_of D j) k.flight ≡ frames
      → WaitsOrReturns (process_imp D (s.workers j))
  process_returns j [] below e =
      inl (process_imp-blocked D (s.workers j) ((k.flies.works j below).reads ∙ e))
  process_returns j (frame ∷ frames) below e =
      let (found, b, bs, worth) = collect-First (jobs_of D j) k.flight frame frames e in
      let (i, d, j', mine, same) = jobs_of_cases D j found.found worth in
      let l = placed (jobs_of D j) found (same ∙ ap (λ (x : ℕ). parcel i d (job x)) (sym mine)) in
      inr (
        process_job D n m s k.ready l.before l.after i d j below
          (subst (λ (x : List Item). Flies n m D x k.ready s) l.here k.flies) l.none_before)

  receive_returns :
      (i : ℕ) (frames : List Bytes)
      → i < m
      → collect (got_of D i) k.flight ≡ frames
      → WaitsOrReturns (receive_imp D (s.customers i).client)
  receive_returns i [] below e =
      inl (receive_imp-blocked D (s.customers i).client ((k.flies.serves i below).gets ∙ e))
  receive_returns i (frame ∷ frames) below e =
      let (found, b, bs, worth) = collect-First (got_of D i) k.flight frame frames e in
      let (i', d, mine, same) = got_of_cases D i found.found worth in
      let l = placed (got_of D i) found (same ∙ ap (λ (x : ℕ). parcel x d home) (sym mine)) in
      inr (
        receive_home D n m s k.ready l.before l.after i d below
          (subst (λ (x : List Item). Flies n m D x k.ready s) l.here k.flies) l.none_before)

-- In every state that the broker and fewer than 2 ^ 32 clients and workers can reach from main's
-- start, whatever the order of the threads and sockets, if zmq::poll reports exactly the sockets that
-- have a message: a round of the broker's loop, of each worker's and what each client does to receive
-- a result either wait for a message or succeed.
pub rounds_return :
    (D : Doubles) (pollin : List Bytes → Bool) (n m : ℕ)
    → ((f : Bytes) (fs : List Bytes) → pollin (f ∷ fs) ≡ true)
    → pollin [] ≡ false
    → n < 2 ^ 32
    → m < 2 ^ 32
    → {s : Hall D} → Reach D pollin n m s
    → WaitsOrReturns (balance_round pollin s.broker)
      × ((j : ℕ) → j < n → WaitsOrReturns (process_imp D (s.workers j)))
      × ((i : ℕ) → i < m → WaitsOrReturns (receive_imp D (s.customers i).client))
rounds_return D pollin n m hears silent few some_few {s = s} r =
    let k = Reach-IsRunning D pollin n m hears silent few some_few r in
    (
      subst (λ (b : BalanceBroker). WaitsOrReturns (balance_round pollin b)) (sym k.flies.broker_eq)
          (elim (balance_round-Moves pollin hears silent (state_of D k.flight k.ready)
            (state_of-IsProper D n m k.flight k.ready k.flies.items_ok)) [
              | inl quiet ↦ inl quiet.0
              | inr moves ↦ inr (broker_at moves.next, moves.returns)
            ]),
      λ j below. process_returns D n m s k j _ below refl,
      λ i below. receive_returns D n m s k i _ below refl,
    )
