-- ===== src/Balance/Hall/Carried.antt =====
-- What the broker's sockets carry, in a hall that is running.
use sim_tools.Base.{
  ℕ, ◌<◌, ◌^◌, ◌≡◌, refl, sym, ap, ◌∙◌, subst, inl, inr, List, [], ◌∷◌, ◌++◌, All, map, ◌==◌,
  Bool-cases, arith,
}
use sim_tools.Base.Bytes.{Bytes, bytes_eq}
use sim_tools.Core.Text.{string_to_zmq_msg}
use sim_tools.Core.Doubles.{Doubles}
use sim_tools.Cluster.Config.{worker_name}
use sim_tools.Balance.Broker.{BalanceBroker, Posted}
use sim_tools.Balance.Worker.{BalanceWorker}
use sim_tools.Balance.Dispatching.{Act, returned, assigned, posted, broker_at}
use sim_tools.Balance.Hall.{customer_name, Customer, Hall, give_client, give_worker}
use sim_tools.Balance.Hall.Flight.{
  dealt, job, back, home, Item, parcel, collect, Nothing, collect-First, placed, landed, kept,
  gained, taken, single_kept, word_of, wish_of, act_of, jobs_of, said_of, sent_of, got_of, due_of,
  task_frame, result_frame,
}
use sim_tools.Balance.Hall.View.{state_of, ShowsWorker, ShowsCustomer, IsItem, Flies, IsRunning}
use sim_tools.Balance.Hall.Cases.{act_of_cases}
use sim_tools.Balance.Hall.Landing.{All-landed, All-at, ShowsWorker-landed, ShowsCustomer-landed}
use sim_tools.Balance.Hall.Names.{customers_test, workers_test}

map_cons :
    (acts : List Act) (p : Posted) (rest : List Posted)
    → map posted acts ≡ p ∷ rest
    → (a : Act) × (others : List Act) × (acts ≡ a ∷ others)
map_cons [] p rest e = absurd (cc)
map_cons (a ∷ acts) p rest e = (a, acts, refl)

module _ (D : Doubles) (n m : ℕ) (few : n < 2 ^ 32) (some_few : m < 2 ^ 32)
    (xs ys : List Item) where
  module _ (i : ℕ) (d : ℕ → ℕ) (j : ℕ) where
    ShowsWorker-dealt :
        (k : ℕ) (w : BalanceWorker)
        → j < n
        → k < n
        → ShowsWorker D (xs ++ parcel i d (dealt j) ∷ ys) k w
        → ShowsWorker D
            (landed xs ys (parcel i d (dealt j)) (parcel i d (job j)))
            k
            (give_worker (posted (assigned (worker_name j) (customer_name i) (task_frame D d))) w)
    unfolding jobs_of said_of
    ShowsWorker-dealt k w below below' s =
        let it = parcel i d (dealt j) in
        let to = parcel i d (job j) in
        let test : bytes_eq (string_to_zmq_msg w.id) (string_to_zmq_msg (worker_name j))
            ≡ (k == j) =
          rw (s.id_eq) (workers_test k j (omega arith) (omega arith)) in
        elim (Bool-cases (k == j)) [
          | inl mine ↦
              (let brought : jobs_of D k to
                    ≡ string_to_zmq_msg (customer_name i) ∷ task_frame D d ∷ [] =
                  rw mine refl in
                rw (test, mine)
                  (record {
                    id_eq = s.id_eq;
                    task_size = s.task_size;
                    reads =
                        ap
                          (λ (l : List Bytes).
                            l ++ string_to_zmq_msg (customer_name i) ∷ task_frame D d ∷ [])
                          s.reads
                        ∙ sym (gained xs ys it to (jobs_of D k) refl brought);
                    says = s.says ∙ sym (kept xs ys it to (said_of D k) refl refl);
                  }))
          | inr other ↦
              (let nothing : jobs_of D k to ≡ [] = rw other refl in
                rw (test, other) (ShowsWorker-landed D xs ys it to k w refl nothing refl refl s))
        ]

  module _ (i : ℕ) (d : ℕ → ℕ) where
    ShowsCustomer-back :
        (k : ℕ) (c : Customer D)
        → i < m
        → k < m
        → ShowsCustomer D (xs ++ parcel i d back ∷ ys) k c
        → ShowsCustomer D (landed xs ys (parcel i d back) (parcel i d home)) k (record c {
          client = give_client (posted (returned (customer_name i) (result_frame D d))) c.client;
        })
    unfolding sent_of got_of due_of
    ShowsCustomer-back k c below below' s =
        let it = parcel i d back in
        let to = parcel i d home in
        let test : bytes_eq (string_to_zmq_msg c.client.id) (string_to_zmq_msg (customer_name i))
            ≡ (k == i) =
          rw (s.id_eq) (customers_test k i (omega arith) (omega arith)) in
        let due = single_kept xs ys it to (due_of k) s.one_due refl in
        elim (Bool-cases (k == i)) [
          | inl mine ↦
              (let brought : got_of D k to ≡ result_frame D d ∷ [] = rw mine refl in
                rw (test, mine)
                  (record {
                    id_eq = s.id_eq;
                    result_size = s.result_size;
                    sends = s.sends ∙ sym (kept xs ys it to (sent_of D k) refl refl);
                    gets =
                        ap (λ (l : List Bytes). l ++ result_frame D d ∷ []) s.gets
                        ∙ sym (gained xs ys it to (got_of D k) refl brought);
                    finished = s.finished;
                    one_due = rw due s.one_due;
                    asked_eq = rw due s.asked_eq;
                    results_eq = s.results_eq;
                  }))
          | inr other ↦
              (let nothing : got_of D k to ≡ [] = rw other refl in
                rw (test, other)
                  (ShowsCustomer-landed D xs ys it to k c refl refl refl nothing refl s))
        ]

module _ (D : Doubles) (n m : ℕ) (few : n < 2 ^ 32) (some_few : m < 2 ^ 32) where
  abbrev carried : Hall D → Posted → List Posted → Hall D
  carried s p rest = record {
    broker = record s.broker { log = rest };
    workers = λ j. give_worker p (s.workers j);
    customers = λ i. record (s.customers i) { client = give_client p (s.customers i).client };
  }

  -- The broker, with the messages that it has not sent.
  sent_on :
      (b : BalanceBroker) (f f' : List Item) (ready : List ℕ) (rest : List Posted)
      → b ≡ broker_at (state_of D f ready)
      → rest ≡ map posted (collect (act_of D) f')
      → collect (word_of D) f' ≡ collect (word_of D) f
      → collect (wish_of D) f' ≡ collect (wish_of D) f
      → record b { log = rest } ≡ broker_at (state_of D f' ready)
  sent_on b f f' ready rest e log words wishes = rw (e, log, words, wishes) refl

  module _ (s : Hall D) (xs ys : List Item) (ready : List ℕ) (p : Posted) (rest : List Posted)
      (e : s.broker.log ≡ p ∷ rest) where
    carried_dealt :
        (i : ℕ) (d : ℕ → ℕ) (j : ℕ)
        → Flies n m D (xs ++ parcel i d (dealt j) ∷ ys) ready s
        → All (Nothing (act_of D)) xs
        → Flies n m D
            (landed xs ys (parcel i d (dealt j)) (parcel i d (job j)))
            ready
            (carried s p rest)
    unfolding word_of wish_of act_of sent_of got_of due_of
    carried_dealt i d j k none =
        let it = parcel i d (dealt j) in
        let to = parcel i d (job j) in
        let log : p ∷ rest
            ≡ posted (assigned (worker_name j) (customer_name i) (task_frame D d))
              ∷ map posted (collect (act_of D) (landed xs ys it to)) =
          sym e
          ∙ ap (λ (b : BalanceBroker). b.log) k.broker_eq
          ∙ ap (map posted) (taken xs ys it to (act_of D) none refl refl) in
        let this : p ≡ posted (assigned (worker_name j) (customer_name i) (task_frame D d)) = cc in
        let that : rest ≡ map posted (collect (act_of D) (landed xs ys it to)) = cc in
        let (client_ok, draw_ok, worker_ok) = All-at (IsItem n m) xs ys it k.items_ok in
        rw this (record {
          broker_eq =
              sent_on s.broker (xs ++ it ∷ ys) (landed xs ys it to) ready rest k.broker_eq that
                (kept xs ys it to (word_of D) refl refl) (kept xs ys it to (wish_of D) refl refl);
          works = λ l below.
              ShowsWorker-dealt D n m few some_few xs ys i d j l (s.workers l) worker_ok below
                (k.works l below);
          serves = λ l below.
              ShowsCustomer-landed D xs ys it to l (s.customers l) refl refl refl refl refl
                (k.serves l below);
          items_ok = All-landed (IsItem n m) xs ys it to k.items_ok (client_ok, draw_ok, worker_ok);
          ready_ok = k.ready_ok;
        })

    carried_back :
        (i : ℕ) (d : ℕ → ℕ)
        → Flies n m D (xs ++ parcel i d back ∷ ys) ready s
        → All (Nothing (act_of D)) xs
        → Flies n m D (landed xs ys (parcel i d back) (parcel i d home)) ready (carried s p rest)
    unfolding word_of wish_of act_of jobs_of said_of
    carried_back i d k none =
        let it = parcel i d back in
        let to = parcel i d home in
        let log : p ∷ rest
            ≡ posted (returned (customer_name i) (result_frame D d))
              ∷ map posted (collect (act_of D) (landed xs ys it to)) =
          sym e
          ∙ ap (λ (b : BalanceBroker). b.log) k.broker_eq
          ∙ ap (map posted) (taken xs ys it to (act_of D) none refl refl) in
        let this : p ≡ posted (returned (customer_name i) (result_frame D d)) = cc in
        let that : rest ≡ map posted (collect (act_of D) (landed xs ys it to)) = cc in
        let (client_ok, draw_ok, nowhere) = All-at (IsItem n m) xs ys it k.items_ok in
        rw this (record {
          broker_eq =
              sent_on s.broker (xs ++ it ∷ ys) (landed xs ys it to) ready rest k.broker_eq that
                (kept xs ys it to (word_of D) refl refl) (kept xs ys it to (wish_of D) refl refl);
          works = λ l below.
              ShowsWorker-landed D xs ys it to l (s.workers l) refl refl refl refl
                (k.works l below);
          serves = λ l below.
              ShowsCustomer-back D n m few some_few xs ys i d l (s.customers l) client_ok below
                (k.serves l below);
          items_ok = All-landed (IsItem n m) xs ys it to k.items_ok (client_ok, draw_ok, tt);
          ready_ok = k.ready_ok;
        })

  -- A message of the broker is carried to the one that it names.
  pub carry_on :
      (s : Hall D) (p : Posted) (rest : List Posted)
      → IsRunning n m D s
      → s.broker.log ≡ p ∷ rest
      → IsRunning n m D (carried s p rest)
  carry_on s p rest k e =
      let (a, others, acts) =
        map_cons (collect (act_of D) k.flight) p rest
          (sym (ap (λ (b : BalanceBroker). b.log) k.flies.broker_eq) ∙ e) in
      let (found, b, bs, worth) = collect-First (act_of D) k.flight a others acts in
      elim (act_of_cases D found.found worth) [
        | inl (i, d, j, same) ↦
            (let l = placed (act_of D) found same in
              record {
                flight = _;
                ready = k.ready;
                flies =
                    carried_dealt s l.before l.after k.ready p rest e i d j
                      (subst (λ (x : List Item). Flies n m D x k.ready s) l.here k.flies)
                      l.none_before;
              })
        | inr (i, d, same) ↦
            (let l = placed (act_of D) found same in
              record {
                flight = _;
                ready = k.ready;
                flies =
                    carried_back s l.before l.after k.ready p rest e i d
                      (subst (λ (x : List Item). Flies n m D x k.ready s) l.here k.flies)
                      l.none_before;
              })
      ]
