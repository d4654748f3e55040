-- ===== src/Balance/Hall/Workers.antt =====
-- The moves of a worker and of its socket, in a hall that is running.
use sim_tools.Base.{
  ℕ, ◌<◌, ◌≡◌, ◌≢◌, refl, sym, ap, ◌∙◌, subst, true, false, inl, inr, List, [], ◌∷◌, ◌++◌, All,
  ◌==◌, ==_iff, Bool-cases, update, update_all, append_assoc,
}
use sim_tools.Base.Bytes.{Bytes}
use sim_tools.Base.Outcome.{done, blocked}
use sim_tools.Core.Text.{string_to_zmq_msg}
use sim_tools.Core.Doubles.{Doubles}
use sim_tools.Cluster.Config.{worker_name}
use sim_tools.Balance.Broker.{BalanceBroker}
use sim_tools.Balance.Worker.{BalanceWorker, process_imp}
use sim_tools.Balance.Client.{gen_task}
use sim_tools.Balance.Trips.{gen_task-ok, process_imp-sum}
use sim_tools.Balance.Dispatching.{Word, signal, answer, word_frames, words_frames}
use sim_tools.Balance.Hall.{customer_name, Hall}
use sim_tools.Balance.Hall.Flight.{
  job, said, heard, Item, parcel, alive, collect, Nothing, collect-First, placed, landed, kept,
  gained, taken, word_of, wish_of, act_of, jobs_of, said_of, sent_of, got_of, due_of, task_frame,
  result_frame,
}
use sim_tools.Balance.Hall.View.{ShowsWorker, IsItem, Flies, IsRunning}
use sim_tools.Balance.Hall.Cases.{jobs_of_cases, said_of_cases}
use sim_tools.Balance.Hall.Landing.{All-landed, All-at, ShowsWorker-landed, ShowsCustomer-landed}
use sim_tools.Floor.Benches.{done_inj}

pub test_self : (k : ℕ) → (k == k) ≡ true
test_self k = (==_iff k k).1 refl

pub test_other : (k j : ℕ) → j ≢ k → (k == j) ≡ false
test_other k j other = elim (Bool-cases (k == j)) [
  | inl same ↦ absurd (other (sym ((==_iff k j).0 same)))
  | inr differs ↦ differs
]

words_frames-last :
    (words : List Word) (w : Word)
    → words_frames (words ++ w ∷ []) ≡ words_frames words ++ word_frames w
words_frames-last [] (signal w) = refl
words_frames-last [] (answer w c r) = refl
words_frames-last (v ∷ words) w =
    ap (◌++◌ (word_frames v)) (words_frames-last words w)
    ∙ sym (append_assoc (word_frames v) (words_frames words) (word_frames w))

module _ (D : Doubles) where
  -- A worker that has nothing waits.
  pub process_imp-blocked : (w : BalanceWorker) → w.input ≡ [] → process_imp D w ≡ blocked
  unfolding process_imp
  process_imp-blocked w e = rw e refl

-- A message of worker j at the broker.
abbrev with_report : {D : Doubles} → Hall D → ℕ → List Bytes → List (List Bytes) → Hall D
with_report s j frames rest = record s {
  broker = record s.broker {
    back_input = s.broker.back_input ++ string_to_zmq_msg (s.workers j).id ∷ frames;
  };
  workers = update s.workers j (record (s.workers j) { log = rest });
}

module _ (D : Doubles) (n m : ℕ) (s : Hall D) (j : ℕ) (below : j < n) (ready : List ℕ)
    (xs ys : List Item) where
  worked :
      (i : ℕ) (d : ℕ → ℕ) (w : BalanceWorker)
      → Flies n m D (xs ++ parcel i d (job j) ∷ ys) ready s
      → All (Nothing (jobs_of D j)) xs
      → process_imp D (s.workers j) ≡ done w
      → Flies n m D
          (landed xs ys (parcel i d (job j)) (parcel i d (said j)))
          ready
          (record s { workers = update s.workers j w })
  unfolding word_of wish_of act_of jobs_of said_of sent_of got_of due_of
  worked i d w k none ran =
      let it = parcel i d (job j) in
      let to = parcel i d (said j) in
      let mine = k.works j below in
      let old = s.workers j in
      let (client_ok, draw_ok, worker_ok) = All-at (IsItem n m) xs ys it k.items_ok in
      let (tag, size) = gen_task-ok D d draw_ok in
      let frames : jobs_of D j it ≡ string_to_zmq_msg (customer_name i) ∷ task_frame D d ∷ [] =
        rw (test_self j) refl in
      let result : said_of D j to
          ≡ (string_to_zmq_msg (customer_name i) ∷ result_frame D d ∷ []) ∷ [] =
        rw (test_self j) refl in
      let read = mine.reads ∙ taken xs ys it to (jobs_of D j) none frames refl in
      let ran' =
        process_imp-sum D old (customer_name i) (gen_task D d)
          (collect (jobs_of D j) (landed xs ys it to)) mine.task_size tag size read in
      let same = done_inj _ w (sym ran' ∙ ran) in
      record {
        broker_eq =
            k.broker_eq
            ∙ rw
                (
                  kept xs ys it to (word_of D) refl refl,
                  kept xs ys it to (wish_of D) refl refl,
                  kept xs ys it to (act_of D) refl refl,
                )
                refl;
        works =
            update_all (λ l w. l < n → ShowsWorker D (landed xs ys it to) l w) s.workers j w
              (λ _. subst (ShowsWorker D (landed xs ys it to) j) same (record {
                id_eq = mine.id_eq;
                task_size = mine.task_size;
                reads = refl;
                says =
                    ap
                      (λ (l : List (List Bytes)).
                        l ++ (string_to_zmq_msg (customer_name i) ∷ result_frame D d ∷ []) ∷ [])
                      mine.says
                    ∙ sym (gained xs ys it to (said_of D j) refl result);
              }))
              (λ l other below'.
                let not_it : jobs_of D l it ≡ [] = rw (test_other l j other) refl in
                let not_to : said_of D l to ≡ [] = rw (test_other l j other) refl in
                ShowsWorker-landed D xs ys it to l (s.workers l) not_it refl refl not_to
                  (k.works l below'));
        serves = λ l below'.
            ShowsCustomer-landed D xs ys it to l (s.customers l) refl refl refl refl refl
              (k.serves l below');
        items_ok = All-landed (IsItem n m) xs ys it to k.items_ok (client_ok, draw_ok, below);
        ready_ok = k.ready_ok;
      }

  reported :
      (it to : Item) (word : Word) (frames : List Bytes) (rest : List (List Bytes))
      (spoken : List Bytes)
      → Flies n m D (xs ++ it ∷ ys) ready s
      → All (Nothing (said_of D j)) xs
      → (s.workers j).log ≡ frames ∷ rest
      → said_of D j it ≡ spoken ∷ []
      → word_of D to ≡ word ∷ []
      → word_frames word ≡ string_to_zmq_msg (worker_name j) ∷ spoken
      → ((l : ℕ) → l ≢ j → said_of D l it ≡ [])
      → ((l : ℕ) → (jobs_of D l it ≡ []) × (jobs_of D l to ≡ []) × (said_of D l to ≡ []))
      → (word_of D it ≡ [])
        × (wish_of D it ≡ [])
        × (wish_of D to ≡ [])
        × (act_of D it ≡ [])
        × (act_of D to ≡ [])
      → ((l : ℕ)
          → (sent_of D l it ≡ [])
            × (sent_of D l to ≡ [])
            × (got_of D l it ≡ [])
            × (got_of D l to ≡ [])
            × (due_of l it ≡ due_of l to))
      → IsItem n m to
      → Flies n m D (landed xs ys it to) ready (with_report s j frames rest)
  reported it to word frames rest spoken k none e now next framed others jobs calm customers ok =
      let mine = k.works j below in
      let log : frames ∷ rest ≡ spoken ∷ collect (said_of D j) (landed xs ys it to) =
        sym e ∙ mine.says ∙ taken xs ys it to (said_of D j) none now (jobs j).2 in
      let this : frames ≡ spoken = cc in
      let that : rest ≡ collect (said_of D j) (landed xs ys it to) = cc in
      let input : s.broker.back_input ++ string_to_zmq_msg (s.workers j).id ∷ frames
          ≡ words_frames (collect (word_of D) (landed xs ys it to)) =
        rw (mine.id_eq, this, ← framed, ap (λ (b : BalanceBroker). b.back_input) k.broker_eq)
          (sym (words_frames-last (collect (word_of D) (xs ++ it ∷ ys)) word)
            ∙ ap words_frames (sym (gained xs ys it to (word_of D) calm.0 next))) in
      record {
        broker_eq =
            ap
              (λ (b : BalanceBroker). record b {
                back_input = s.broker.back_input ++ string_to_zmq_msg (s.workers j).id ∷ frames;
              })
              k.broker_eq
            ∙ rw
                (
                  input,
                  kept xs ys it to (wish_of D) calm.1 calm.2,
                  kept xs ys it to (act_of D) calm.3 calm.4,
                )
                refl;
        works =
            update_all (λ l w. l < n → ShowsWorker D (landed xs ys it to) l w) s.workers j _
              (λ _. record {
                id_eq = mine.id_eq;
                task_size = mine.task_size;
                reads = mine.reads ∙ sym (kept xs ys it to (jobs_of D j) (jobs j).0 (jobs j).1);
                says = that;
              })
              (λ l other below'.
                ShowsWorker-landed D xs ys it to l (s.workers l) (jobs l).0 (jobs l).1
                  (others l (λ e. other (sym e))) (jobs l).2 (k.works l below'));
        serves = λ l below'.
            let c = customers l in
            ShowsCustomer-landed D xs ys it to l (s.customers l) c.0 c.1 c.2 c.3 c.4
              (k.serves l below');
        items_ok = All-landed (IsItem n m) xs ys it to k.items_ok ok;
        ready_ok = k.ready_ok;
      }

module _ (D : Doubles) (n m : ℕ) (s : Hall D) (j : ℕ) (below : j < n) where
  -- A worker processes the task that it has got first.
  pub work_on :
      (w : BalanceWorker)
      → IsRunning n m D s
      → process_imp D (s.workers j) ≡ done w
      → IsRunning n m D (record s { workers = update s.workers j w })
  work_on w k ran = by_jobs (collect (jobs_of D j) k.flight) refl
    where
      by_jobs :
          (frames : List Bytes)
          → collect (jobs_of D j) k.flight ≡ frames
          → IsRunning n m D (record s { workers = update s.workers j w })
      by_jobs [] e =
          let waits = process_imp-blocked D (s.workers j) ((k.flies.works j below).reads ∙ e) in
          absurd (cc)
      by_jobs (frame ∷ frames) e =
          let (found, b, bs, worth) = collect-First (jobs_of D j) k.flight frame frames e in
          let (i, d, j', mine, same) = jobs_of_cases D j found.found worth in
          let l =
            placed (jobs_of D j) found (same ∙ ap (λ (x : ℕ). parcel i d (job x)) (sym mine)) in
          record {
            flight = _;
            ready = k.ready;
            flies =
                worked D n m s j below k.ready l.before l.after i d w
                  (subst (λ (x : List Item). Flies n m D x k.ready s) l.here k.flies) l.none_before
                  ran;
          }

  -- What a worker has sent first gets to the broker.
  pub report_on :
      (frames : List Bytes) (rest : List (List Bytes))
      → IsRunning n m D s
      → (s.workers j).log ≡ frames ∷ rest
      → IsRunning n m D (with_report s j frames rest)
  unfolding word_of wish_of act_of jobs_of said_of sent_of got_of due_of
  report_on frames rest k e =
      let (found, b, bs, worth) =
        collect-First (said_of D j) k.flight frames rest (sym (k.flies.works j below).says ∙ e) in
      elim (said_of_cases D j found.found worth) [
        | inl (i, d, j', mine, same) ↦
            (let l =
                placed (said_of D j) found
                  (same ∙ ap (λ (x : ℕ). parcel i d (said x)) (sym mine)) in
              let flies = subst (λ (x : List Item). Flies n m D x k.ready s) l.here k.flies in
              let ok = All-at (IsItem n m) l.before l.after (parcel i d (said j)) flies.items_ok in
              record {
                flight = _;
                ready = k.ready;
                flies =
                    reported D n m s j below k.ready l.before l.after (parcel i d (said j))
                      (parcel i d (heard j))
                      (answer (worker_name j) (customer_name i) (result_frame D d)) frames rest _
                      flies l.none_before e (rw (test_self j) refl) refl refl
                      (λ l other. rw (test_other l j (λ e. other (sym e))) refl)
                      (λ l. (refl, refl, refl)) (refl, refl, refl, refl, refl)
                      (λ l. (refl, refl, refl, refl, refl)) ok;
              })
        | inr (j', mine, same) ↦
            (let l = placed (said_of D j) found (same ∙ ap (λ (x : ℕ). alive x false) (sym mine)) in
              let flies = subst (λ (x : List Item). Flies n m D x k.ready s) l.here k.flies in
              record {
                flight = _;
                ready = k.ready;
                flies =
                    reported D n m s j below k.ready l.before l.after (alive j false) (alive j true)
                      (signal (worker_name j)) frames rest _ flies l.none_before e
                      (rw (test_self j) refl) refl refl
                      (λ l other. rw (test_other l j (λ e. other (sym e))) refl)
                      (λ l. (refl, refl, refl)) (refl, refl, refl, refl, refl)
                      (λ l. (refl, refl, refl, refl, refl)) below;
              })
      ]
