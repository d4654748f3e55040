-- ===== src/Floor/Safety.antt =====
-- What a cluster's broker and workers can rely on, whatever the order of their moves.
use sim_tools.Base.{
  ℕ, ◌+◌, ◌<◌, ◌≤◌, ◌^◌, ◌≡◌, sym, ap, ◌∙◌, subst, ◌≢◌, true, Bool, List, [], ◌∷◌, length, All,
  arith,
}
use sim_tools.Base.Bytes.{Bytes}
use sim_tools.Base.Outcome.{done}
use sim_tools.Core.Doubles.{Doubles}
use sim_tools.Core.Names.{IsName}
use sim_tools.Core.Envelope.{Envelope, Encodes}
use sim_tools.Cluster.Broker.{Broker, poll_round}
use sim_tools.Cluster.Worker.{Worker, process}
use sim_tools.Cluster.Config.{worker_name}
use sim_tools.Cluster.Naming.{AllDistinct, worker_name-IsName, worker_name-injective}
use sim_tools.Floor.Run.{Floor, Letter, Reach}
use sim_tools.Floor.View.{ShowsBench, unheard, called, IsJob}
use sim_tools.Floor.Tokens.{queue_bounds}
use sim_tools.Floor.Round.{poll_round-Goes}
use sim_tools.Floor.Benches.{IsWorking, process_job}
use sim_tools.Floor.Places.{
  Memᴰ-waiting, waiting-Memᴰ, waiting-AllDistinct, without_work, idle, no_letters, no_deliveries,
}
use sim_tools.Floor.Reachable.{ledger, Reach-IsWorking}
use mathlib.Core.List.{Memᴰ}

module _ (D : Doubles) (pollin : List Bytes → Bool) (n : ℕ) (cluster : Bytes)
    (sound : (fs : List Bytes) → pollin fs ≡ true → fs ≢ []) (few : n < 2 ^ 32)
    (cluster_ok : IsName cluster) {s : Floor} (r : Reach D pollin n cluster worker_name s) where
  working : IsWorking D (ledger D pollin n cluster worker_name r) n worker_name cluster s
  working =
      Reach-IsWorking D pollin n cluster worker_name sound few cluster_ok
        (λ i _. worker_name-IsName i)
        (λ i j hi hj e. worker_name-injective i j (omega arith) (omega arith) e) r

  -- In every state that up to 2 ^ 32 - 1 workers and the broker, under a name that fits, can reach with
  -- their clients and the super broker, if zmq::poll reports only sockets that have a message: a round
  -- of the broker's loop succeeds.
  pub poll_round-returns : (b : Broker) × (poll_round pollin s.broker ≡ done b)
  poll_round-returns =
      let k = working in
      let g =
        poll_round-Goes D (ledger D pollin n cluster worker_name r) n worker_name cluster k.bench
          pollin sound s.broker k.hub few k.shows k.orderly in
      (g.after, g.returns)

  -- In every such state no worker is twice in the ready queue, and it has no more entries than there
  -- are workers.
  pub queue_exact : AllDistinct s.broker.work_ready_queue × (length s.broker.work_ready_queue ≤ n)
  queue_exact =
      let k = working in
      rw (k.shows.queue_eq) (
        waiting-AllDistinct n worker_name k.hub.queue k.orderly.queue_known
            (λ i below. omega (arith, k.orderly.one_turn i below)),
        queue_bounds k.orderly,
      )

  module _ (i : ℕ) (below : i < n) where
    -- In every such state a worker in the ready queue has no task, and nothing that it still sends.
    pub ready-rests :
        Memᴰ (worker_name i) s.broker.work_ready_queue
        → ((s.workers i).input ≡ []) × ((s.workers i).log ≡ [])
    ready-rests ready =
        let k = working in
        let here : Memᴰ (worker_name i) k.hub.queue =
          subst (Memᴰ (worker_name i)) k.shows.queue_eq ready in
        without_work (worker_name i) (s.workers i) (k.bench i).jobs (k.bench i).answers
          (k.works i below)
          (omega (arith, k.orderly.one_turn i below, Memᴰ-waiting (worker_name i) k.hub.queue here))

    -- In every such state, when the broker has nothing to read from its workers and nothing to send, a
    -- worker that has no task and nothing to send is in the ready queue.
    pub nobody_lost :
        s.broker.back_end_input ≡ []
        → s.broker.log ≡ []
        → (s.workers i).input ≡ []
        → (s.workers i).log ≡ []
        → Memᴰ (worker_name i) s.broker.work_ready_queue
    unfolding unheard called
    nobody_lost no_back no_sent no_input no_log =
        let k = working in
        let x = worker_name i in
        let quiet = no_letters k.hub.back s.broker.back_end_input k.shows.back_read no_back in
        let still = no_deliveries s.broker.log k.hub.out k.shows.sent no_sent in
        let free =
          idle x (s.workers i) (k.bench i).jobs (k.bench i).answers (k.works i below) no_input
            no_log in
        subst (Memᴰ x) (sym k.shows.queue_eq) (
          waiting-Memᴰ x k.hub.queue (
            omega
              (arith, k.orderly.one_turn i below, free, ap (unheard x) quiet, ap (called x) still)))

    process_here :
        (jobs answers : List Letter)
        → All
            (λ l. IsJob D (ledger D pollin n cluster worker_name r) cluster l.envelope l.payload)
            jobs
        → length jobs + length answers ≤ 1
        → ShowsBench (worker_name i) (s.workers i) (record { jobs = jobs; answers = answers })
        → (s.workers i).input ≢ []
        → (w : Worker) × (e : Envelope) × (f sum : Bytes) × (process D (s.workers i) ≡ done w)
          × (w.input ≡ [])
          × (w.log ≡ (f ∷ sum ∷ []) ∷ [])
          × Encodes f e
          × (e.from ≡ worker_name i)
    process_here [] answers due one shows some_input = absurd (some_input shows.jobs_read)
    process_here (l ∷ m ∷ ls) answers due one shows some_input = absurd (omega arith)
    process_here (l ∷ []) (m ∷ ms) due one shows some_input = absurd (omega arith)
    process_here (l ∷ []) [] due one shows some_input =
        let (w, m, ran, from, said, after) =
          process_job D (ledger D pollin n cluster worker_name r) cluster (worker_name i)
            (worker_name-IsName i) (s.workers i) l [] [] due.0 shows in
        let (f, rest, e, enc, none) = after.answers_sent in
        (
          w,
          m.envelope,
          f,
          m.payload,
          ran,
          after.jobs_read,
          e ∙ ap (◌∷◌ (f ∷ m.payload ∷ [])) none,
          enc,
          from,
        )

    -- In every such state a worker that has got something can process it: it had one task, and sends one
    -- message, which says that it is from this worker.
    pub process-returns :
        (s.workers i).input ≢ []
        → (w : Worker) × (e : Envelope) × (f sum : Bytes) × (process D (s.workers i) ≡ done w)
          × (w.input ≡ [])
          × (w.log ≡ (f ∷ sum ∷ []) ∷ [])
          × Encodes f e
          × (e.from ≡ worker_name i)
    process-returns some_input =
        let k = working in
        process_here (k.bench i).jobs (k.bench i).answers (k.orderly.jobs_due i below)
          (omega (arith, k.orderly.one_turn i below)) (k.works i below) some_input
