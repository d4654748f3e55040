-- ===== src/Floor/Drain.antt =====
-- A cluster that gets no more requests comes to rest.
use sim_tools.Base.{
  ℕ, ◌+◌, ◌<◌, ◌≤◌, ◌^◌, ◌≡◌, refl, subst, ◌≢◌, ◌⊎◌, inl, inr, Bool, true, false, Bool-cases, List,
  [], ◌∷◌, length, All, arith,
}
use sim_tools.Base.Bytes.{Bytes}
use sim_tools.Core.Doubles.{Doubles}
use sim_tools.Core.Names.{IsName}
use sim_tools.Cluster.Broker.{Sent}
use sim_tools.Cluster.Balancer.{Delivery, CarriesAll}
use sim_tools.Floor.Run.{Floor, Letter, Step, serve, work, carry, report, ask, pass_on}
use sim_tools.Floor.View.{Bench, ShowsBench, Sends, Ledger, IsJob}
use sim_tools.Floor.Round.{once, poll_round-Goes}
use sim_tools.Floor.Benches.{IsWorking, weight, process_job, work_on}
use sim_tools.Floor.Carrying.{carry_on}
use sim_tools.Floor.Reports.{report_on}
use mathlib.Core.List.{Memᴰ}

module _ (D : Doubles) (pollin : List Bytes → Bool) (n : ℕ) (cluster : Bytes)
    (name : ℕ → Bytes) where
  -- The moves of the broker, of the workers and of their sockets.
  abbrev pub IsOwn : {s t : Floor} → Step D pollin n cluster name s t → Type 0
  IsOwn (ask ls fs read fit same) = ⊥
  IsOwn (pass_on ls fs read fit same) = ⊥
  IsOwn _ = Unit {0}

  -- Some of these moves, one after the other.
  pub data OwnMoves : Floor → Floor → Type 0 where
    stay : {s : Floor} → OwnMoves s s
    then_on :
        {s u t : Floor} (step : Step D pollin n cluster name s u)
        → IsOwn step
        → OwnMoves u t
        → OwnMoves s t

  -- Nothing is on its way, and every worker is ready.
  pub record IsAtRest (s : Floor) : Type 0 where
    pub back_read : s.broker.back_end_input ≡ []
    pub front_read : s.broker.front_end_input ≡ []
    pub cloud_read : s.broker.cloud_task_input ≡ []
    pub all_sent : s.broker.log ≡ []
    pub no_task : (i : ℕ) → i < n → (s.workers i).input ≡ []
    pub no_answer : (i : ℕ) → i < n → (s.workers i).log ≡ []
    pub all_ready : (i : ℕ) → i < n → Memᴰ (name i) s.broker.work_ready_queue

  -- A move that brings the cluster nearer to its rest.
  pub record Nearer (g : Ledger) (s : Floor) (bound : ℕ) : Type 0 where
    pub next : Floor
    pub step : Step D pollin n cluster name s next
    pub own : IsOwn step
    pub working : IsWorking D g n name cluster next
    pub nearer : weight n working.hub working.bench < bound

  module _ (g : Ledger) (sound : (fs : List Bytes) → pollin fs ≡ true → fs ≢ [])
      (complete : (fs : List Bytes) → fs ≢ [] → pollin fs ≡ true) (few : n < 2 ^ 32)
      (names : (i : ℕ) → i < n → IsName (name i))
      (distinct : (i j : ℕ) → i < n → j < n → name i ≡ name j → i ≡ j) where
    pub can_carry :
        (s : Floor) (k : IsWorking D g n name cluster s) (log : List Sent) (out : List Delivery)
        → s.broker.log ≡ log
        → CarriesAll log out
        → (log ≡ []) ⊎ Nearer g s (weight n k.hub k.bench)
    can_carry s k [] out e sent = inl refl
    can_carry s k (m ∷ rest) out e sent =
        let (k', less) = carry_on D g n name cluster distinct s m rest k e in
        inr (record { next = _; step = carry e refl; own = tt; working = k'; nearer = less })

    pub can_serve :
        (s : Floor) (k : IsWorking D g n name cluster s)
        → ((pollin s.broker.back_end_input ≡ false)
            × (pollin s.broker.front_end_input ≡ false)
            × (pollin s.broker.cloud_task_input ≡ false))
          ⊎ Nearer g s (weight n k.hub k.bench)
    can_serve s k =
        let turn =
          poll_round-Goes D g n name cluster k.bench pollin sound s.broker k.hub few k.shows
            k.orderly in
        let k' : IsWorking D g n name cluster (record s { broker = turn.after }) = record {
          hub = turn.hub;
          bench = k.bench;
          shows = turn.shows;
          works = k.works;
          orderly = turn.orderly;
        } in
        let read : 1
              ≤ once (pollin s.broker.back_end_input)
                + (once (pollin s.broker.front_end_input) + once (pollin s.broker.cloud_task_input))
            → Nearer g s (weight n k.hub k.bench) =
          λ some_read. record {
            next = record s { broker = turn.after };
            step = serve turn.returns refl;
            own = tt;
            working = k';
            nearer = omega (arith, turn.light, some_read);
          } in
        elim (Bool-cases (pollin s.broker.back_end_input)) [
          | inl up ↦ inr (read (rw up (omega arith)))
          | inr no_back ↦ elim (Bool-cases (pollin s.broker.front_end_input)) [
            | inl up ↦ inr (read (rw (up, no_back) (omega arith)))
            | inr no_front ↦ elim (Bool-cases (pollin s.broker.cloud_task_input)) [
              | inl up ↦ inr (read (rw (up, no_back, no_front) (omega arith)))
              | inr no_cloud ↦ inl (no_back, no_front, no_cloud)
            ]
          ]
        ]

    pub nothing_left : (fs : List Bytes) → pollin fs ≡ false → fs ≡ []
    nothing_left [] none = refl
    nothing_left (f ∷ fs) none =
        let up : pollin (f ∷ fs) ≡ true = complete (f ∷ fs) (λ e. absurd (cc)) in absurd (cc)

    pub can_work :
        (s : Floor) (k : IsWorking D g n name cluster s) (i : ℕ) (jobs answers : List Letter)
        → i < n
        → k.bench i ≡ record { jobs = jobs; answers = answers }
        → (length jobs + length answers ≡ 0) ⊎ Nearer g s (weight n k.hub k.bench)
    can_work s k i [] [] below here = inl refl
    can_work s k i jobs (m ∷ ms) below here =
        let (f, rest, e, enc, more) =
          subst (λ (b : Bench). Sends b.answers (s.workers i).log) here
            (k.works i below).answers_sent in
        let (k', less) =
          report_on D g n name cluster distinct s i (f ∷ m.payload ∷ []) rest k below e in
        inr
          (record { next = _; step = report i below e refl; own = tt; working = k'; nearer = less })
    can_work s k i (l ∷ ls) [] below here =
        let shown = subst (ShowsBench (name i) (s.workers i)) here (k.works i below) in
        let due =
          subst (λ (b : Bench). All (λ x. IsJob D g cluster x.envelope x.payload) b.jobs) here
            (k.orderly.jobs_due i below) in
        let (w, m, ran, from, said, after) =
          process_job D g cluster (name i) (names i below) (s.workers i) l ls [] due.0 shown in
        let (k', less) = work_on D g n name cluster names s i w k below ran in
        inr
          (record { next = _; step = work i below ran refl; own = tt; working = k'; nearer = less })
