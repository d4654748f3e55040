-- ===== src/Floor/Benches.antt =====
-- The moves of the workers and of the sockets, in a cluster that is at work.
use sim_tools.Base.{
  update, update_all, update_both, ℕ, ◌+◌, ◌%◌, ◌^◌, ◌<◌, ◌≡◌, refl, sym, ap, ◌∙◌, subst, ◌≢◌, List,
  [], ◌∷◌, ◌++◌, length-append, All, All-append, arith, inl, inr,
}
use sim_tools.Base.Bytes.{Bytes}
use sim_tools.Base.Outcome.{Outcome, done}
use sim_tools.Core.Doubles.{Doubles, sum_from, load_request}
use sim_tools.Core.Names.{IsName}
use sim_tools.Core.Envelope.{Envelope}
use sim_tools.Cluster.Worker.{Worker, process}
use sim_tools.Cluster.Answers.{answer, process-load, load_request-fits}
use sim_tools.Floor.Run.{Floor, Letter}
use sim_tools.Floor.View.{
  Hub, Bench, ShowsHub, ShowsBench, turns, IsOrderly, weigh, bench_weight, Ledger, IsTaskOf, IsJob,
  IsRequestFrom, IsReply,
}
use sim_tools.Floor.Sums.{sum, sum_update}
use sim_tools.Floor.Letters.{Sends-append}

-- The cluster shows a state in which every worker is at one place.
pub record IsWorking (D : Doubles) (g : Ledger) (n : ℕ) (name : ℕ → Bytes) (cluster : Bytes)
    (s : Floor) : Type 0 where
  pub hub : Hub
  pub bench : ℕ → Bench
  pub shows : ShowsHub cluster s.broker hub
  pub works : (i : ℕ) → i < n → ShowsBench (name i) (s.workers i) (bench i)
  pub orderly : IsOrderly D g cluster n name hub bench

-- How many moves of the cluster's own are left, at most.
abbrev pub weight : ℕ → Hub → (ℕ → Bench) → ℕ
weight n hub bench = weigh hub + sum n (λ i. bench_weight (bench i))

-- After a move of the cluster's own.
abbrev pub Moved : Doubles → Ledger → ℕ → (ℕ → Bytes) → Bytes → Floor → ℕ → Type 0
Moved D g n name cluster s bound =
    (k : IsWorking D g n name cluster s) × (weight n k.hub k.bench < bound)

abbrev pub letter : Envelope → Bytes → Letter
letter e p = record { envelope = e; payload = p }

module _ (D : Doubles) (g : Ledger) (cluster : Bytes) (name : Bytes) (is_name : IsName name) where
  -- The cluster that a task came from.
  asking :
      (e : Envelope) (l : Letter)
      → IsTaskOf D g cluster l e
      → IsRequestFrom D g cluster e.from_cluster l
  asking e l (inl (sent, same)) = inl (sent, ap (λ (x : Envelope). x.from_cluster) same)
  asking e l (inr (sent, submitted, same)) =
      inr (sent, submitted, ap (λ (x : Envelope). x.from_cluster) same)

  -- A worker with a task answers it, under its own name.
  pub process_job :
      (w : Worker) (l : Letter) (ls answers : List Letter)
      → IsJob D g cluster l.envelope l.payload
      → ShowsBench name w (record { jobs = l ∷ ls; answers = answers })
      → (w' : Worker) × (m : Letter) × (process D w ≡ done w')
        × (m.envelope.from ≡ name)
        × IsReply D g cluster m.envelope m.payload
        × ShowsBench name w' (record { jobs = ls; answers = answers ++ m ∷ [] })
  process_job w l ls answers job s =
      let (f, rest, e, enc, more) = s.jobs_read in
      let (ds, read) = load_request-fits D job.origin.payload job.fits in
      let loaded : load_request D l.payload ≡ done ds =
        ap (load_request D) job.same_payload ∙ read in
      let own : IsName w.id = rw (s.id_eq) is_name in
      let (g, enc', ran) = process-load D w l.envelope f l.payload ds rest own enc loaded e in
      let sum = D.to_bytes (sum_from D D.zero_double ds) in
      (
        record w {
          input = rest;
          log = w.log ++ (g ∷ sum ∷ []) ∷ [];
          work_counter = (w.work_counter + 1) % 2 ^ 32;
        },
        letter (answer w.id l.envelope) sum,
        ran,
        s.id_eq,
        inr (record {
          origin = job.origin;
          source = asking l.envelope job.origin job.source;
          values = ds;
          loaded = read;
          asker = job.sender;
          number = job.number;
          total = refl;
        }),
        record {
          id_eq = s.id_eq;
          jobs_read = more;
          answers_sent =
              Sends-append answers (letter (answer w.id l.envelope) sum) g w.log s.answers_sent
                enc';
        },
      )

  -- A worker without a task waits.
  pub process_idle :
      (w : Worker) (answers : List Letter) (w' : Worker)
      → ShowsBench name w (record { jobs = []; answers = answers })
      → process D w ≢ done w'
  unfolding process
  process_idle w answers w' s = rw (s.jobs_read) (λ e. cc)

pub done_inj {ℓ} : {A : Type ℓ} (x y : A) → done x ≡ done y → x ≡ y
done_inj {A = A} x y e = ap (λ (r : Outcome A). elim r [ done v ↦ v | _ ↦ x ]) e

module _ (D : Doubles) (g : Ledger) (n : ℕ) (name : ℕ → Bytes) (cluster : Bytes)
    (names : (i : ℕ) → i < n → IsName (name i)) where
  abbrev Own : ℕ → Letter → Type 0
  Own i x = (x.envelope.from ≡ name i) × IsReply D g cluster x.envelope x.payload

  work_by :
      (s : Floor) (hub : Hub) (bench : ℕ → Bench) (i : ℕ) (jobs answers : List Letter) (w' : Worker)
      → ShowsHub cluster s.broker hub
      → ((j : ℕ) → j < n → ShowsBench (name j) (s.workers j) (bench j))
      → IsOrderly D g cluster n name hub bench
      → i < n
      → bench i ≡ record { jobs = jobs; answers = answers }
      → process D (s.workers i) ≡ done w'
      → Moved D g n name cluster (record s { workers = update s.workers i w' }) (weight n hub bench)
  work_by s hub bench i [] answers w' shows works o below here ran = absurd (
      process_idle D g cluster (name i) (names i below) (s.workers i) answers w'
        (subst (ShowsBench (name i) (s.workers i)) here (works i below)) ran)
  work_by s hub bench i (l ∷ ls) answers w' shows works o below here ran =
      let mine = subst (ShowsBench (name i) (s.workers i)) here (works i below) in
      let due : All (λ x. IsJob D g cluster x.envelope x.payload) (l ∷ ls) =
        subst (λ (k : Bench). All (λ x. IsJob D g cluster x.envelope x.payload) k.jobs) here
          (o.jobs_due i below) in
      let (w1, m, ran1, from, said, next) =
        process_job D g cluster (name i) (names i below) (s.workers i) l ls answers due.0 mine in
      let same : w1 ≡ w' = done_inj w1 w' (sym ran1 ∙ ran) in
      let after : Bench = record { jobs = ls; answers = answers ++ m ∷ [] } in
      let own : All (Own i) answers =
        subst (λ (k : Bench). All (Own i) k.answers) here (o.answers_own i below) in
      (
        record {
          hub = hub;
          bench = update bench i after;
          shows = shows;
          works =
              update_both (λ j w k. j < n → ShowsBench (name j) w k) s.workers bench i w' after
                (λ _. subst (λ (w : Worker). ShowsBench (name i) w after) same next) works;
          orderly = record {
            one_turn =
                update_all (λ j k. j < n → turns (name j) hub k ≡ 1) bench i after
                  (λ _.
                    let before : turns (name i) hub (record { jobs = l ∷ ls; answers = answers })
                        ≡ 1 =
                      subst (λ (k : Bench). turns (name i) hub k ≡ 1) here (o.one_turn i below) in
                    omega (arith, before, length-append answers (m ∷ [])))
                  (λ j _. o.one_turn j);
            queue_known = o.queue_known;
            back_heard = o.back_heard;
            out_sound = o.out_sound;
            front_asked = o.front_asked;
            cloud_passed = o.cloud_passed;
            jobs_due =
                update_all (λ j k. j < n → All (λ x. IsJob D g cluster x.envelope x.payload) k.jobs)
                  bench i after (λ _. due.1) (λ j _. o.jobs_due j);
            answers_own =
                update_all (λ j k. j < n → All (Own j) k.answers) bench i after
                  (λ _. All-append (Own i) answers (m ∷ []) own ((from, said), tt))
                  (λ j _. o.answers_own j);
          };
        },
        omega (
          arith,
          sum_update bench_weight n bench i after below,
          ap bench_weight here,
          length-append answers (m ∷ []),
        ),
      )

  -- A worker's own move.
  pub work_on :
      (s : Floor) (i : ℕ) (w' : Worker) (k : IsWorking D g n name cluster s)
      → i < n
      → process D (s.workers i) ≡ done w'
      → Moved D g n name cluster
          (record s { workers = update s.workers i w' })
          (weight n k.hub k.bench)
  work_on s i w' k below ran =
      work_by s k.hub k.bench i (k.bench i).jobs (k.bench i).answers w' k.shows k.works k.orderly
        below refl ran
