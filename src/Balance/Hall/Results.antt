-- ===== src/Balance/Hall/Results.antt =====
-- What main's clients get, whatever the order of the threads.
use sim_tools.Base.{
  ℕ, zero, suc, ◌+◌, ◌-◌, ◌<◌, ◌≤◌, ◌^◌, ◌≡◌, ◌≢◌, refl, sym, ap, ◌∙◌, true, false, Bool, inl, inr,
  List, [], ◌∷◌, All, map, length, drop, arith, length-append,
}
use sim_tools.Base.{append-nil, All-append, All-map, drop-append}
use sim_tools.Base.Bytes.{Bytes}
use sim_tools.Base.Outcome.{done}
use sim_tools.Core.Doubles.{Doubles}
use sim_tools.Balance.Broker.{BalanceBroker, balance_round}
use sim_tools.Balance.Tasks.{length-encode_task}
use sim_tools.Balance.Worker.{make_balance_worker}
use sim_tools.Balance.Client.{gen_task}
use sim_tools.Balance.Trips.{gen_task-ok}
use sim_tools.Balance.Dispatching.{broker_at, IsWord, IsWish, IsProper}
use sim_tools.Balance.Rounds.{as_steps, balance_round-Moves}
use sim_tools.Balance.Hall.{
  Hall, Step, serve, carry, work, report, ask, submit, take_in, Reach, start, later, opened,
  new_balance_broker, make_balance_client,
}
use sim_tools.Balance.Hall.Flight.{
  out, front, dealt, job, said, heard, back, home, Item, parcel, alive, spent, collect, word_of,
  wish_of, act_of, jobs_of, said_of, sent_of, got_of, due_of,
}
use sim_tools.Balance.Hall.View.{result_of, state_of, IsItem, IsRunning}
use sim_tools.Balance.Hall.Names.{customer_name-other}
use sim_tools.Balance.Hall.Rounds.{All-Flown}
use sim_tools.Balance.Hall.Carried.{carry_on}
use sim_tools.Balance.Hall.Workers.{test_self, test_other, work_on, report_on}
use sim_tools.Balance.Hall.Customers.{length-map, ask_on, submit_on, take_in_on}
use sim_tools.Floor.Benches.{done_inj}
use native.Mathlib.Decide.{dec_lt}

-- The signals of the first so many workers.
signals : ℕ → List Item
signals zero = []
signals (suc n) = alive n false ∷ signals n

module _ {ℓ} {A : Type ℓ} (g : Item → List A) where
  collect-signals_none :
      (n : ℕ) → ((j : ℕ) → j < n → g (alive j false) ≡ []) → collect g (signals n) ≡ []
  unfolding signals
  collect-signals_none zero h = refl
  collect-signals_none (suc n) h =
      rw (h n (omega arith)) (collect-signals_none n (λ j below. h j (omega arith)))

  collect-signals_one :
      (n j : ℕ) (v : List A)
      → j < n
      → g (alive j false) ≡ v
      → ((i : ℕ) → i ≢ j → g (alive i false) ≡ [])
      → collect g (signals n) ≡ v
  unfolding signals
  collect-signals_one zero j v below one others = absurd (omega arith)
  collect-signals_one (suc n) j v below one others = elim (dec_lt j n) [
    | yes before ↦
        rw (others n (λ e. absurd (omega (arith, e)))) (collect-signals_one n j v before one others)
    | no last ↦
        (let here : n ≡ j = omega arith in
          let others_too =
            collect-signals_none n (λ i lower. others i (λ e. absurd (omega (arith, e)))) in
          rw (here, one, ← here, others_too) (append-nil v))
  ]

signals-IsItem : (n m k : ℕ) → n ≤ k → All (IsItem k m) (signals n)
unfolding signals
signals-IsItem zero m k h = tt
signals-IsItem (suc n) m k h = (omega arith, signals-IsItem n m k (omega arith))

module _ (D : Doubles) (n m : ℕ) where
  opened-IsRunning :
      (old_tasks old_results : ℕ → Bytes)
      → ((j : ℕ) → length (old_tasks j) ≡ 8208)
      → ((i : ℕ) → length (old_results i) ≡ 24)
      → IsRunning n m D (opened D old_tasks old_results)
  unfolding opened new_balance_broker make_balance_worker make_balance_client word_of wish_of act_of
      jobs_of said_of sent_of got_of due_of
  opened-IsRunning old_tasks old_results sizes1 sizes2 = record {
    flight = signals n;
    ready = [];
    flies = record {
      broker_eq =
          rw
            (
              collect-signals_none (word_of D) n (λ j b. refl),
              collect-signals_none (wish_of D) n (λ j b. refl),
              collect-signals_none (act_of D) n (λ j b. refl),
            )
            refl;
      works = λ j below. record {
        id_eq = refl;
        task_size = sizes1 j;
        reads = sym (collect-signals_none (jobs_of D j) n (λ i b. refl));
        says = sym (
            collect-signals_one (said_of D j) n j _ below (rw (test_self j) refl)
              (λ i other. rw (test_other j i other) refl));
      };
      serves = λ i below. record {
        id_eq = refl;
        result_size = sizes2 i;
        sends = sym (collect-signals_none (sent_of D i) n (λ j b. refl));
        gets = sym (collect-signals_none (got_of D i) n (λ j b. refl));
        finished = [];
        one_due = rw (collect-signals_none (due_of i) n (λ j b. refl)) (omega arith);
        asked_eq = rw (collect-signals_none (due_of i) n (λ j b. refl)) refl;
        results_eq = refl;
      };
      items_ok = signals-IsItem n m n (omega arith);
      ready_ok = tt;
    };
  }

  All-collect {ℓ κ} :
      {A : Type ℓ} (P : A → Type κ) (g : Item → List A) (f : List Item)
      → All (λ it. All P (g it)) f
      → All P (collect g f)
  All-collect P g [] h = tt
  All-collect P g (it ∷ f) h = All-append P (g it) (collect g f) h.0 (All-collect P g f h.1)

  IsWord-item : (it : Item) → IsItem n m it → All IsWord (word_of D it)
  unfolding word_of
  IsWord-item (parcel i d out) ok = tt
  IsWord-item (parcel i d front) ok = tt
  IsWord-item (parcel i d (dealt j)) ok = tt
  IsWord-item (parcel i d (job j)) ok = tt
  IsWord-item (parcel i d (said j)) ok = tt
  IsWord-item (parcel i d (heard j)) ok = (customer_name-other i, tt)
  IsWord-item (parcel i d back) ok = tt
  IsWord-item (parcel i d home) ok = tt
  IsWord-item (alive j true) ok = (tt, tt)
  IsWord-item (alive j false) ok = tt
  IsWord-item spent ok = tt

  IsWish-item : (it : Item) → IsItem n m it → All IsWish (wish_of D it)
  unfolding wish_of
  IsWish-item (parcel i d out) ok = tt
  IsWish-item (parcel i d front) ok =
      (let (tag, size) = gen_task-ok D d ok.1 in
        (omega (arith, length-encode_task D (gen_task D d) size), tt))
  IsWish-item (parcel i d (dealt j)) ok = tt
  IsWish-item (parcel i d (job j)) ok = tt
  IsWish-item (parcel i d (said j)) ok = tt
  IsWish-item (parcel i d (heard j)) ok = tt
  IsWish-item (parcel i d back) ok = tt
  IsWish-item (parcel i d home) ok = tt
  IsWish-item (alive j true) ok = tt
  IsWish-item (alive j false) ok = tt
  IsWish-item spent ok = tt

  -- What the broker reads is what it can hand on.
  pub state_of-IsProper :
      (f : List Item) (ready : List ℕ) → All (IsItem n m) f → IsProper (state_of D f ready)
  state_of-IsProper f ready ok = record {
    words_ok =
        All-collect IsWord (word_of D) f
          (All-map (IsItem n m) (λ it. All IsWord (word_of D it)) f IsWord-item ok);
    wishes_ok =
        All-collect IsWish (wish_of D) f
          (All-map (IsItem n m) (λ it. All IsWish (wish_of D it)) f IsWish-item ok);
  }

module _ (D : Doubles) (pollin : List Bytes → Bool) (n m : ℕ)
    (hears : (f : Bytes) (fs : List Bytes) → pollin (f ∷ fs) ≡ true) (silent : pollin [] ≡ false)
    (few : n < 2 ^ 32) (some_few : m < 2 ^ 32) where
  serve_on :
      (s : Hall D) (b : BalanceBroker)
      → IsRunning n m D s
      → balance_round pollin s.broker ≡ done b
      → IsRunning n m D (record s { broker = b })
  serve_on s b k ran =
      let at = state_of D k.flight k.ready in
      let ran' : balance_round pollin (broker_at at) ≡ done b = rw (← k.flies.broker_eq) ran in
      elim (balance_round-Moves pollin hears silent at
        (state_of-IsProper D n m k.flight k.ready k.flies.items_ok)) [
          | inl (waits, nothing) ↦ absurd (cc)
          | inr moves ↦
              (let new =
                  All-Flown D n m k.flight k.ready (as_steps moves.steps) refl k.flies.items_ok
                    k.flies.ready_ok in
                record {
                  flight = new.flight;
                  ready = new.ready;
                  flies = record {
                    broker_eq = done_inj b _ (sym ran' ∙ moves.returns) ∙ ap broker_at new.state_is;
                    works = λ j below. new.works j (s.workers j) (k.flies.works j below);
                    serves = λ i below. new.serves i (s.customers i) (k.flies.serves i below);
                    items_ok = new.items_ok;
                    ready_ok = new.ready_ok;
                  };
                })
        ]

  Step-IsRunning : {s t : Hall D} → IsRunning n m D s → Step D pollin n m s t → IsRunning n m D t
  Step-IsRunning {s = s} k (serve {b = b} ran same) = rw same (serve_on s b k ran)
  Step-IsRunning {s = s} k (carry {p = p} {rest = rest} sent same) =
      rw same (carry_on D n m few some_few s p rest k sent)
  Step-IsRunning {s = s} k (work j {w = w} below ran same) =
      rw same (work_on D n m s j below w k ran)
  Step-IsRunning {s = s} k (report j {frames = frames} {rest = rest} below sent same) =
      rw same (report_on D n m s j below frames rest k sent)
  Step-IsRunning {s = s} k (ask i draw below idle more draws same) =
      rw same (ask_on D n m s i below draw idle draws k)
  Step-IsRunning {s = s} k (submit i {frame = frame} {rest = rest} below sent same) =
      rw same (submit_on D n m s i below frame rest k sent)
  Step-IsRunning {s = s} k (take_in i {c = c} {r = r} below waits ran same) =
      rw same (take_in_on D n m s i below c r k ran)

  pub Reach-IsRunning : {s : Hall D} → Reach D pollin n m s → IsRunning n m D s
  Reach-IsRunning (start old_tasks old_results sizes1 sizes2) =
      opened-IsRunning D n m old_tasks old_results sizes1 sizes2
  Reach-IsRunning (later r step) = Step-IsRunning (Reach-IsRunning r) step

  -- In every state that the broker and fewer than 2 ^ 32 clients and workers can reach from main's
  -- start, whatever the order of the threads and sockets, if zmq::poll reports exactly the sockets
  -- that have a message: each client has printed the results of the tasks that it has drawn, each
  -- with its number and its sum and in their order, and of all its tasks but the last one at most.
  pub results_exact :
      {s : Hall D}
      → Reach D pollin n m s
      → (i : ℕ) → i < m
      → let c = s.customers i in
        (length c.asked ≤ length c.results + 1)
        × (c.results ≡ map (result_of D) (drop (length c.asked - length c.results) c.asked))
  results_exact {s = s} r i below =
      let k = Reach-IsRunning r in
      let c = k.flies.serves i below in
      let due = collect (due_of i) k.flight in
      let asked = ap length c.asked_eq ∙ length-append due c.finished in
      let printed = ap length c.results_eq ∙ length-map (result_of D) c.finished in
      let missing : length due ≡ length (s.customers i).asked - length (s.customers i).results =
        omega (arith, asked, printed) in
      (
        omega (arith, asked, printed, c.one_due),
        c.results_eq
            ∙ ap (map (result_of D)) (
                sym (
                  ap (drop (length (s.customers i).asked - length (s.customers i).results))
                    c.asked_eq
                  ∙ drop-append _ due c.finished missing)),
      )
