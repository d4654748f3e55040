-- ===== src/Floor/Rest.antt =====
-- The rest that a cluster comes to.
use sim_tools.Base.{
  ℕ, zero, suc, ◌+◌, ◌<◌, ◌≤◌, ◌^◌, ◌≡◌, refl, sym, ap, subst, ◌≢◌, ◌⊎◌, inl, inr, Bool, true, List,
  [], length, arith,
}
use sim_tools.Base.Bytes.{Bytes}
use sim_tools.Core.Doubles.{Doubles}
use sim_tools.Core.Names.{IsName}
use sim_tools.Cluster.Config.{worker_name}
use sim_tools.Cluster.Naming.{worker_name-IsName, worker_name-injective}
use sim_tools.Floor.Run.{Floor, Reach}
use sim_tools.Floor.View.{Bench, unheard, called, Ledger}
use sim_tools.Floor.Benches.{IsWorking, weight}
use sim_tools.Floor.Places.{waiting-Memᴰ, without_work, no_letters, no_deliveries}
use sim_tools.Floor.Reachable.{ledger, Reach-IsWorking}
use sim_tools.Floor.Drain.{
  OwnMoves, stay, then_on, IsAtRest, Nearer, can_carry, can_serve, nothing_left, can_work,
}
use mathlib.Core.List.{Memᴰ}
use native.Mathlib.Decide.{dec_lt}

module _ (D : Doubles) (g : Ledger) (pollin : List Bytes → Bool) (n : ℕ) (cluster : Bytes)
    (name : ℕ → Bytes) (sound : (fs : List Bytes) → pollin fs ≡ true → fs ≢ [])
    (complete : (fs : List Bytes) → fs ≢ [] → pollin fs ≡ true) (few : n < 2 ^ 32)
    (names : (i : ℕ) → i < n → IsName (name i))
    (distinct : (i j : ℕ) → i < n → j < n → name i ≡ name j → i ≡ j) where
  abbrev Free : Bench → Type 0
  Free b = length b.jobs + length b.answers ≡ 0

  -- A worker among the first m that can move, or none.
  search :
      (s : Floor) (k : IsWorking D g n name cluster s) (m : ℕ)
      → m ≤ n
      → ((i : ℕ) → i < m → Free (k.bench i))
        ⊎ Nearer D pollin n cluster name g s (weight n k.hub k.bench)
  search s k zero few_left = inl (λ i below. absurd (omega arith))
  search s k (suc m) few_left = elim (search s k m (omega arith)) [
    | inr found ↦ inr found
    | inl free ↦
        elim (can_work D pollin n cluster name g sound complete few names distinct s k m
          (k.bench m).jobs (k.bench m).answers (omega arith) refl) [
            | inr found ↦ inr found
            | inl free_too ↦ inl (λ i below. elim (dec_lt i m) [
              | yes lower ↦ free i lower
              | no last ↦
                  (let same : m ≡ i = omega arith in subst (λ j. Free (k.bench j)) same free_too)
            ])
          ]
  ]

  at_rest :
      (s : Floor) (k : IsWorking D g n name cluster s)
      → s.broker.back_end_input ≡ []
      → s.broker.front_end_input ≡ []
      → s.broker.cloud_task_input ≡ []
      → s.broker.log ≡ []
      → ((i : ℕ) → i < n → Free (k.bench i))
      → IsAtRest D pollin n cluster name s
  unfolding unheard called
  at_rest s k no_back no_front no_cloud no_sent free =
      let quiet = no_letters k.hub.back s.broker.back_end_input k.shows.back_read no_back in
      let still = no_deliveries s.broker.log k.hub.out k.shows.sent no_sent in
      let idle = λ (i : ℕ) (below : i < n).
        without_work (name i) (s.workers i) (k.bench i).jobs (k.bench i).answers (k.works i below)
          (free i below) in
      record {
        back_read = no_back;
        front_read = no_front;
        cloud_read = no_cloud;
        all_sent = no_sent;
        no_task = λ i below. (idle i below).0;
        no_answer = λ i below. (idle i below).1;
        all_ready = λ i below. subst (Memᴰ (name i)) (sym k.shows.queue_eq) (
            waiting-Memᴰ (name i) k.hub.queue (
              omega (
                arith,
                k.orderly.one_turn i below,
                free i below,
                ap (unheard (name i)) quiet,
                ap (called (name i)) still,
              )));
      }

  -- A move of the cluster's own, or its rest.
  advances :
      (s : Floor) (k : IsWorking D g n name cluster s)
      → IsAtRest D pollin n cluster name s
        ⊎ Nearer D pollin n cluster name g s (weight n k.hub k.bench)
  advances s k =
      elim (can_carry D pollin n cluster name g sound complete few names distinct s k s.broker.log
        k.hub.out refl k.shows.sent) [
          | inr found ↦ inr found
          | inl no_sent ↦
              elim (can_serve D pollin n cluster name g sound complete few names distinct s k) [
                | inr found ↦ inr found
                | inl (b, f, c) ↦ elim (search s k n (omega arith)) [
                  | inr found ↦ inr found
                  | inl free ↦
                      (let left =
                          nothing_left D pollin n cluster name g sound complete few names
                            distinct in
                        inl (at_rest s k (left _ b) (left _ f) (left _ c) no_sent free))
                ]
              ]
        ]

  settles :
      (m : ℕ) (s : Floor) (k : IsWorking D g n name cluster s)
      → weight n k.hub k.bench ≤ m
      → (t : Floor) × OwnMoves D pollin n cluster name s t × IsAtRest D pollin n cluster name t
  settles zero s k bound = elim (advances s k) [
    | inl rest ↦ (s, stay, rest)
    | inr found ↦ absurd (omega (arith, found.nearer))
  ]
  settles (suc m) s k bound = elim (advances s k) [
    | inl rest ↦ (s, stay, rest)
    | inr found ↦
        (let (t, moves, rest) = settles m found.next found.working (omega (arith, found.nearer)) in
          (t, then_on found.step found.own moves, rest))
  ]

-- From every state that a cluster's broker and workers can reach, their own moves can bring the
-- cluster to rest, if zmq::poll reports exactly the sockets that have a message: every request and
-- every answer has been read, everything sent has been carried on, and every worker is ready.
pub comes_to_rest :
    (D : Doubles) (pollin : List Bytes → Bool) (n : ℕ) (cluster : Bytes)
    → ((fs : List Bytes) → pollin fs ≡ true → fs ≢ [])
    → ((fs : List Bytes) → fs ≢ [] → pollin fs ≡ true)
    → n < 2 ^ 32
    → IsName cluster
    → (s : Floor) → Reach D pollin n cluster worker_name s
    → (t : Floor) × OwnMoves D pollin n cluster worker_name s t
      × IsAtRest D pollin n cluster worker_name t
comes_to_rest D pollin n cluster sound complete few cluster_ok s r =
    let distinct = λ (i j : ℕ) (hi : i < n) (hj : j < n) (e : worker_name i ≡ worker_name j).
      worker_name-injective i j (omega arith) (omega arith) e in
    let k =
      Reach-IsWorking D pollin n cluster worker_name sound few cluster_ok
        (λ i _. worker_name-IsName i) distinct r in
    settles D (ledger D pollin n cluster worker_name r) pollin n cluster worker_name sound complete
      few (λ i _. worker_name-IsName i) distinct (weight n k.hub k.bench) s k (omega arith)
