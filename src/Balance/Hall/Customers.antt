-- ===== src/Balance/Hall/Customers.antt =====
-- The moves of a client and of its socket, in a hall that is running.
use sim_tools.Base.{
  ℕ, suc, ◌<◌, ◌≤◌, ◌≡◌, refl, sym, ap, ◌∙◌, subst, List, [], ◌∷◌, ◌++◌, All, All-append, map,
  length, length-append, arith, update, update_all, append-nil,
}
use sim_tools.Base.Bytes.{Bytes}
use sim_tools.Base.Outcome.{done, blocked}
use sim_tools.Core.Text.{string_to_zmq_msg}
use sim_tools.Core.Doubles.{Doubles}
use sim_tools.Balance.Broker.{BalanceBroker}
use sim_tools.Balance.Tasks.{TaskResult, load_result-encode_result}
use sim_tools.Balance.Worker.{sum_task}
use sim_tools.Balance.Client.{BalanceClient, gen_task, send_imp, receive_imp}
use sim_tools.Balance.Trips.{AreDraws, gen_task-ok, sum_task_tag}
use sim_tools.Balance.Dispatching.{Wish, wishes_frames}
use sim_tools.Balance.Hall.{customer_name, Hall}
use sim_tools.Balance.Hall.Flight.{
  out, front, home, Item, parcel, spent, collect, collect-append, Nothing, collect-First, placed,
  landed, kept, gained, taken, single_kept, word_of, wish_of, act_of, jobs_of, said_of, sent_of,
  got_of, due_of, task_frame, result_frame,
}
use sim_tools.Balance.Hall.View.{result_of, ShowsCustomer, IsItem, Flies, IsRunning}
use sim_tools.Balance.Hall.Cases.{sent_of_cases, got_of_cases}
use sim_tools.Balance.Hall.Landing.{All-landed, All-at, ShowsWorker-landed, ShowsCustomer-landed}
use sim_tools.Balance.Hall.Workers.{test_self, test_other}
use sim_tools.Floor.Benches.{done_inj}

-- A new item, where it is not.
last_nothing {ℓ} :
    {A : Type ℓ} (g : Item → List A) (f : List Item) (it : Item)
    → g it ≡ []
    → collect g f ≡ collect g (f ++ it ∷ [])
last_nothing g f it e = rw (collect-append g f (it ∷ []), e) (sym (append-nil (collect g f)))

wishes_frames-last :
    (wishes : List Wish) (w : Wish)
    → wishes_frames (wishes ++ w ∷ [])
      ≡ wishes_frames wishes ++ string_to_zmq_msg w.client ∷ w.task ∷ []
wishes_frames-last [] w = refl
wishes_frames-last (v ∷ wishes) w =
    ap (λ (l : List Bytes). string_to_zmq_msg v.client ∷ v.task ∷ l) (wishes_frames-last wishes w)

nothing_due :
    (due finished : List (ℕ → ℕ)) (k : ℕ) → length (due ++ finished) ≡ length finished → due ≡ []
nothing_due [] finished k e = refl
nothing_due (d ∷ due) finished k e = absurd (omega (arith, length-append due finished))

pub length-map {ℓ κ} :
    {A : Type ℓ} {B : Type κ} (f : A → B) (xs : List A) → length (map f xs) ≡ length xs
length-map f [] = refl
length-map f (x ∷ xs) = ap suc (length-map f xs)

module _ (D : Doubles) (n m : ℕ) (s : Hall D) (i : ℕ) (below : i < m) where
  -- A client sends its next task.
  pub ask_on :
      (draw : ℕ → ℕ)
      → length (s.customers i).asked ≡ length (s.customers i).results
      → AreDraws draw
      → IsRunning n m D s
      → IsRunning n m D (record s {
        customers = update s.customers i (record (s.customers i) {
          client = send_imp D draw (s.customers i).client;
          asked = draw ∷ (s.customers i).asked;
        });
      })
  unfolding word_of wish_of act_of jobs_of said_of sent_of got_of due_of send_imp
  ask_on draw got_all draws k =
      let it = parcel i draw out in
      let f = k.flight in
      let mine = k.flies.serves i below in
      let none : collect (due_of i) f ≡ [] = nothing_due (collect (due_of i) f) mine.finished i (
        ap length (sym mine.asked_eq)
        ∙ got_all
        ∙ ap length mine.results_eq
        ∙ length-map (result_of D) mine.finished) in
      let one : collect (due_of i) (f ++ it ∷ []) ≡ draw ∷ [] =
        rw (collect-append (due_of i) f (it ∷ []), none, test_self i) refl in
      record {
        flight = f ++ it ∷ [];
        ready = k.ready;
        flies = record {
          broker_eq =
              k.flies.broker_eq
              ∙ rw
                  (
                    last_nothing (word_of D) f it refl,
                    last_nothing (wish_of D) f it refl,
                    last_nothing (act_of D) f it refl,
                  )
                  refl;
          works = λ l below'.
              let w = k.flies.works l below' in
              record {
                id_eq = w.id_eq;
                task_size = w.task_size;
                reads = w.reads ∙ last_nothing (jobs_of D l) f it refl;
                says = w.says ∙ last_nothing (said_of D l) f it refl;
              };
          serves =
              update_all (λ l c. l < m → ShowsCustomer D (f ++ it ∷ []) l c) s.customers i _
                (λ _. record {
                  id_eq = mine.id_eq;
                  result_size = mine.result_size;
                  sends =
                      rw (collect-append (sent_of D i) f (it ∷ []), test_self i, mine.sends) refl;
                  gets = mine.gets ∙ last_nothing (got_of D i) f it refl;
                  finished = mine.finished;
                  one_due = rw one (omega arith);
                  asked_eq = rw one (
                      ap (◌∷◌ draw)
                        (mine.asked_eq ∙ ap (λ (l : List (ℕ → ℕ)). l ++ mine.finished) none));
                  results_eq = mine.results_eq;
                })
                (λ l other below'.
                  let c = k.flies.serves l below' in
                  let not_sent : sent_of D l it ≡ [] = rw (test_other l i other) refl in
                  let not_due : due_of l it ≡ [] = rw (test_other l i other) refl in
                  let due = last_nothing (due_of l) f it not_due in
                  record {
                    id_eq = c.id_eq;
                    result_size = c.result_size;
                    sends = c.sends ∙ last_nothing (sent_of D l) f it not_sent;
                    gets = c.gets ∙ last_nothing (got_of D l) f it refl;
                    finished = c.finished;
                    one_due = rw (← due) c.one_due;
                    asked_eq = rw (← due) c.asked_eq;
                    results_eq = c.results_eq;
                  });
          items_ok = All-append (IsItem n m) f (it ∷ []) k.flies.items_ok ((below, draws, tt), tt);
          ready_ok = k.flies.ready_ok;
        };
      }

-- What the broker reads of a client.
abbrev with_wish : {D : Doubles} → Hall D → ℕ → Bytes → List Bytes → Hall D
with_wish s i frame rest = record s {
  broker = record s.broker {
    front_input = s.broker.front_input ++ string_to_zmq_msg (s.customers i).client.id ∷ frame ∷ [];
  };
  customers =
      update s.customers i
        (record (s.customers i) { client = record ((s.customers i).client) { log = rest } });
}

only_one : {A : Type 0} (a c : List A) (d : A) → length (a ++ d ∷ c) ≤ 1 → (a ≡ []) × (c ≡ [])
only_one [] [] d one = (refl, refl)
only_one [] (x ∷ c) d one = absurd (omega arith)
only_one (x ∷ a) c d one = absurd (omega (arith, length-append a (d ∷ c)))

module _ (D : Doubles) (n m : ℕ) (s : Hall D) (i : ℕ) (below : i < m) (ready : List ℕ)
    (xs ys : List Item) (d : ℕ → ℕ) where
  submitted :
      (frame : Bytes) (rest : List Bytes)
      → Flies n m D (xs ++ parcel i d out ∷ ys) ready s
      → All (Nothing (sent_of D i)) xs
      → (s.customers i).client.log ≡ frame ∷ rest
      → Flies n m D
          (landed xs ys (parcel i d out) (parcel i d front))
          ready
          (with_wish s i frame rest)
  unfolding word_of wish_of act_of jobs_of said_of sent_of got_of due_of
  submitted frame rest k none e =
      let it = parcel i d out in
      let to = parcel i d front in
      let mine = k.serves i below in
      let now : sent_of D i it ≡ task_frame D d ∷ [] = rw (test_self i) refl in
      let log : frame ∷ rest ≡ task_frame D d ∷ collect (sent_of D i) (landed xs ys it to) =
        sym e ∙ mine.sends ∙ taken xs ys it to (sent_of D i) none now refl in
      let this : frame ≡ task_frame D d = cc in
      let that : rest ≡ collect (sent_of D i) (landed xs ys it to) = cc in
      let wish : Wish = record { client = customer_name i; task = task_frame D d } in
      let input : s.broker.front_input ++ string_to_zmq_msg (s.customers i).client.id ∷ frame ∷ []
          ≡ wishes_frames (collect (wish_of D) (landed xs ys it to)) =
        rw (mine.id_eq, this, ap (λ (b : BalanceBroker). b.front_input) k.broker_eq)
          (sym (wishes_frames-last (collect (wish_of D) (xs ++ it ∷ ys)) wish)
            ∙ ap wishes_frames (sym (gained xs ys it to (wish_of D) refl refl))) in
      let due = single_kept xs ys it to (due_of i) mine.one_due refl in
      record {
        broker_eq =
            ap
              (λ (b : BalanceBroker). record b {
                front_input =
                    s.broker.front_input
                    ++ string_to_zmq_msg (s.customers i).client.id ∷ frame ∷ [];
              })
              k.broker_eq
            ∙ rw
                (
                  input,
                  kept xs ys it to (word_of D) refl refl,
                  kept xs ys it to (act_of D) refl refl,
                )
                refl;
        works = λ l below'.
            ShowsWorker-landed D xs ys it to l (s.workers l) refl refl refl refl (k.works l below');
        serves =
            update_all (λ l c. l < m → ShowsCustomer D (landed xs ys it to) l c) s.customers i _
              (λ _. record {
                id_eq = mine.id_eq;
                result_size = mine.result_size;
                sends = that;
                gets = mine.gets ∙ sym (kept xs ys it to (got_of D i) refl refl);
                finished = mine.finished;
                one_due = rw due mine.one_due;
                asked_eq = rw due mine.asked_eq;
                results_eq = mine.results_eq;
              })
              (λ l other below'.
                let not_sent : sent_of D l it ≡ [] = rw (test_other l i other) refl in
                ShowsCustomer-landed D xs ys it to l (s.customers l) not_sent refl refl refl refl
                  (k.serves l below'));
        items_ok =
            All-landed (IsItem n m) xs ys it to k.items_ok
              (All-at (IsItem n m) xs ys it k.items_ok);
        ready_ok = k.ready_ok;
      }

  taken_in :
      (c : BalanceClient) (r : TaskResult D.Double)
      → Flies n m D (xs ++ parcel i d home ∷ ys) ready s
      → All (Nothing (got_of D i)) xs
      → receive_imp D (s.customers i).client ≡ done (c, r)
      → Flies n m D (landed xs ys (parcel i d home) spent) ready (record s {
        customers =
            update s.customers i
              (record (s.customers i) { client = c; results = r ∷ (s.customers i).results });
      })
  unfolding word_of wish_of act_of jobs_of said_of sent_of got_of due_of receive_imp
  taken_in c r k none ran =
      let it = parcel i d home in
      let mine = k.serves i below in
      let old = (s.customers i).client in
      let (client_ok, draw_ok, nowhere) = All-at (IsItem n m) xs ys it k.items_ok in
      let (tag, size) = gen_task-ok D d draw_ok in
      let now : got_of D i it ≡ result_frame D d ∷ [] = rw (test_self i) refl in
      let input : old.input ≡ result_frame D d ∷ collect (got_of D i) (landed xs ys it spent) =
        mine.gets ∙ taken xs ys it spent (got_of D i) none now refl in
      let ran' : receive_imp D old
          ≡ done (
            record old { input = collect (got_of D i) (landed xs ys it spent) },
            sum_task D (gen_task D d),
          ) =
        rw
          (
            input,
            load_result-encode_result D old.old_result (sum_task D (gen_task D d)) mine.result_size
                (sum_task_tag D (gen_task D d) tag),
          )
          refl in
      let same = done_inj _ (c, r) (sym ran' ∙ ran) in
      let this_due : due_of i it ≡ d ∷ [] = rw (test_self i) refl in
      let all_due : collect (due_of i) (xs ++ it ∷ ys)
          ≡ collect (due_of i) xs ++ d ∷ collect (due_of i) ys =
        rw (collect-append (due_of i) xs (it ∷ ys), this_due) refl in
      let (none_before, none_after) =
        only_one (collect (due_of i) xs) (collect (due_of i) ys) d
          (subst (λ (l : List (ℕ → ℕ)). length l ≤ 1) all_due mine.one_due) in
      let just_it : collect (due_of i) (xs ++ it ∷ ys) ≡ d ∷ [] =
        rw (all_due, none_before, none_after) refl in
      let none_due : collect (due_of i) (landed xs ys it spent) ≡ [] =
        rw
          (
            collect-append (due_of i) (xs ++ ys) (spent ∷ []),
            collect-append (due_of i) xs ys,
            none_before,
            none_after,
          )
          refl in
      record {
        broker_eq =
            k.broker_eq
            ∙ rw
                (
                  kept xs ys it spent (word_of D) refl refl,
                  kept xs ys it spent (wish_of D) refl refl,
                  kept xs ys it spent (act_of D) refl refl,
                )
                refl;
        works = λ l below'.
            ShowsWorker-landed D xs ys it spent l (s.workers l) refl refl refl refl
              (k.works l below');
        serves =
            update_all (λ l c. l < m → ShowsCustomer D (landed xs ys it spent) l c) s.customers i _
              (λ _.
                subst
                  (λ (p : BalanceClient × TaskResult D.Double).
                    ShowsCustomer D (landed xs ys it spent) i (record (s.customers i) {
                      client = p.0;
                      results = p.1 ∷ (s.customers i).results;
                    }))
                  same
                  (record {
                    id_eq = mine.id_eq;
                    result_size = mine.result_size;
                    sends = mine.sends ∙ sym (kept xs ys it spent (sent_of D i) refl refl);
                    gets = refl;
                    finished = d ∷ mine.finished;
                    one_due = rw none_due (omega arith);
                    asked_eq =
                        rw none_due
                          (mine.asked_eq ∙ ap (λ (l : List (ℕ → ℕ)). l ++ mine.finished) just_it);
                    results_eq = ap (◌∷◌ (result_of D d)) mine.results_eq;
                  }))
              (λ l other below'.
                let not_got : got_of D l it ≡ [] = rw (test_other l i other) refl in
                let not_due : due_of l it ≡ due_of l spent = rw (test_other l i other) refl in
                ShowsCustomer-landed D xs ys it spent l (s.customers l) refl refl not_got refl
                  not_due (k.serves l below'));
        items_ok = All-landed (IsItem n m) xs ys it spent k.items_ok tt;
        ready_ok = k.ready_ok;
      }

module _ (D : Doubles) where
  -- A client that has nothing waits.
  pub receive_imp-blocked : (c : BalanceClient) → c.input ≡ [] → receive_imp D c ≡ blocked
  unfolding receive_imp
  receive_imp-blocked c e = rw e refl

module _ (D : Doubles) (n m : ℕ) (s : Hall D) (i : ℕ) (below : i < m) where
  -- What a client has sent gets to the broker.
  pub submit_on :
      (frame : Bytes) (rest : List Bytes)
      → IsRunning n m D s
      → (s.customers i).client.log ≡ frame ∷ rest
      → IsRunning n m D (with_wish s i frame rest)
  submit_on frame rest k e =
      let (found, b, bs, worth) =
        collect-First (sent_of D i) k.flight frame rest (sym (k.flies.serves i below).sends ∙ e) in
      let (i', d, mine, same) = sent_of_cases D i found.found worth in
      let l = placed (sent_of D i) found (same ∙ ap (λ (x : ℕ). parcel x d out) (sym mine)) in
      record {
        flight = _;
        ready = k.ready;
        flies =
            submitted D n m s i below k.ready l.before l.after d frame rest
              (subst (λ (x : List Item). Flies n m D x k.ready s) l.here k.flies) l.none_before e;
      }

  -- A client reads the result that it has got.
  pub take_in_on :
      (c : BalanceClient) (r : TaskResult D.Double)
      → IsRunning n m D s
      → receive_imp D (s.customers i).client ≡ done (c, r)
      → IsRunning n m D (record s {
        customers =
            update s.customers i
              (record (s.customers i) { client = c; results = r ∷ (s.customers i).results });
      })
  take_in_on c r k ran = by_input (collect (got_of D i) k.flight) refl
    where
      by_input :
          (frames : List Bytes)
          → collect (got_of D i) k.flight ≡ frames
          → IsRunning n m D (record s {
            customers =
                update s.customers i
                  (record (s.customers i) { client = c; results = r ∷ (s.customers i).results });
          })
      by_input [] e =
          let waits =
            receive_imp-blocked D (s.customers i).client ((k.flies.serves i below).gets ∙ e) in
          absurd (cc)
      by_input (frame ∷ frames) e =
          let (found, b, bs, worth) = collect-First (got_of D i) k.flight frame frames e in
          let (i', d, mine, same) = got_of_cases D i found.found worth in
          let l = placed (got_of D i) found (same ∙ ap (λ (x : ℕ). parcel x d home) (sym mine)) in
          record {
            flight = _;
            ready = k.ready;
            flies =
                taken_in D n m s i below k.ready l.before l.after d c r
                  (subst (λ (x : List Item). Flies n m D x k.ready s) l.here k.flies) l.none_before
                  ran;
          }
