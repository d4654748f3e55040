-- ===== src/Cluster/Naming.antt =====
-- The names that ClusterHelper::buildCluster gives to a cluster's clients and workers.
use sim_tools.Base.{
  ℕ, zero, suc, ◌+◌, ◌-◌, ◌*◌, ◌/◌, ◌%◌, ◌^◌, ◌≤◌, ◌<◌, ◌≡◌, refl, ap, ◌∙◌, sym, ◌≢◌, List, [], ◌∷◌,
  ◌++◌, map, All, arith, length, drop, ltb, ltb→lt, lt→ltb, Bool-cases, inl, inr, length-append,
  All-append,
}
use sim_tools.Base.Bytes.{Bytes}
use sim_tools.Base.Outcome.{done}
use sim_tools.Core.Text.{string_to_zmq_msg}
use sim_tools.Core.Names.{IsChar, IsName}
use sim_tools.Cluster.Worker.{Worker}
use sim_tools.Cluster.Client.{Client}
use sim_tools.Cluster.Answers.{make_worker-signal}
use sim_tools.Cluster.Config.{decimal, to_string, client_name, worker_name}
use sim_tools.Cluster.Assembly.{OneCluster, make_clients, make_workers, build_cluster}
use native.Mathlib.Nat.{pow-suc}

-- The number that digits stand for, after those already read.
number : ℕ → Bytes → ℕ
number acc [] = acc
number acc (d ∷ ds) = number (acc * 10 + (d - 48)) ds

number-append :
    (acc : ℕ) (ds : Bytes) (d : ℕ) → number acc (ds ++ d ∷ []) ≡ number acc ds * 10 + (d - 48)
unfolding number
number-append acc [] d = refl
number-append acc (e ∷ ds) d = number-append (acc * 10 + (e - 48)) ds d

number-decimal : (k n : ℕ) → n < 10 ^ k → number 0 (decimal k n) ≡ n
unfolding number decimal
number-decimal zero n h = omega arith
number-decimal (suc k) n h =
    let bound : n < 10 ^ k * 10 = rw (pow-suc) at h in
    elim (Bool-cases (ltb n 10)) [
      | inl small ↦ rw small (omega arith)
      | inr large ↦
          rw (large, number-append 0 (decimal k (n / 10)) (48 + n % 10))
            (omega (arith, number-decimal k (n / 10) (omega arith)))
    ]

decimal-chars : (k n : ℕ) → All IsChar (decimal k n) × (length (decimal k n) ≤ k)
unfolding decimal
decimal-chars zero n = omega arith
decimal-chars (suc k) n =
    let rest = decimal-chars k (n / 10) in
    elim (Bool-cases (ltb n 10)) [
      | inl small ↦ rw small (let h = ltb→lt n 10 small in omega arith)
      | inr large ↦ rw large (
        All-append IsChar (decimal k (n / 10)) ((48 + n % 10) ∷ []) rest.0 (omega arith),
        omega (arith, length-append (decimal k (n / 10)) ((48 + n % 10) ∷ []), rest.1),
      )
    ]

pub worker_name-IsName : (i : ℕ) → IsName (worker_name i)
unfolding worker_name
worker_name-IsName i =
    let facts = decimal-chars 10 i in
    record {
      chars = (
        omega arith,
        (
          omega arith,
          (omega arith, (omega arith, (omega arith, (omega arith, (omega arith, facts.0))))),
        ),
      );
      fits = omega (arith, facts.1);
    }

client_name-IsName : (i : ℕ) → IsName (client_name i)
unfolding client_name
client_name-IsName i =
    let facts = decimal-chars 10 i in
    record {
      chars = (
        omega arith,
        (
          omega arith,
          (omega arith, (omega arith, (omega arith, (omega arith, (omega arith, facts.0))))),
        ),
      );
      fits = omega (arith, facts.1);
    }

pub to_string-injective : (i j : ℕ) → i < 10 ^ 10 → j < 10 ^ 10 → to_string i ≡ to_string j → i ≡ j
to_string-injective i j hi hj e =
    sym (number-decimal 10 i hi) ∙ ap (number 0) e ∙ number-decimal 10 j hj

pub worker_name-injective :
    (i j : ℕ) → i < 10 ^ 10 → j < 10 ^ 10 → worker_name i ≡ worker_name j → i ≡ j
unfolding worker_name
worker_name-injective i j hi hj e = to_string-injective i j hi hj (ap (drop 7) e)

client_name-injective :
    (i j : ℕ) → i < 10 ^ 10 → j < 10 ^ 10 → client_name i ≡ client_name j → i ≡ j
unfolding client_name
client_name-injective i j hi hj e = to_string-injective i j hi hj (ap (drop 7) e)

-- The names with the numbers from i on.
abbrev pub numbered : (ℕ → Bytes) → ℕ → ℕ → List Bytes
numbered name i zero = []
numbered name i (suc n) = name i ∷ numbered name (i + 1) n

abbrev pub AllDistinct : List Bytes → Type 0
AllDistinct [] = Unit {0}
AllDistinct (x ∷ xs) = All (λ y. x ≢ y) xs × AllDistinct xs

module _ (name : ℕ → Bytes)
    (injective : (i j : ℕ) → i < 10 ^ 10 → j < 10 ^ 10 → name i ≡ name j → i ≡ j) where
  numbered-differ :
      (j i n : ℕ) → j < i → i + n ≤ 10 ^ 10 → All (λ y. name j ≢ y) (numbered name i n)
  numbered-differ j i zero h l = tt
  numbered-differ j i (suc n) h l = (
    λ e. absurd (omega (arith, injective j i (omega arith) (omega arith) e)),
    numbered-differ j (i + 1) n (omega arith) (omega arith),
  )

  numbered-AllDistinct : (i n : ℕ) → i + n ≤ 10 ^ 10 → AllDistinct (numbered name i n)
  numbered-AllDistinct i zero l = tt
  numbered-AllDistinct i (suc n) l = (
    numbered-differ i (i + 1) n (omega arith) (omega arith),
    numbered-AllDistinct (i + 1) n (omega arith),
  )

make_workers-done :
    (i n : ℕ)
    → i + n < 2 ^ 31
    → (ws : List Worker) × (make_workers i n ≡ done ws)
      × (map (λ w. w.id) ws ≡ numbered worker_name i n)
unfolding make_workers
make_workers-done i zero l = ([], refl, refl)
make_workers-done i (suc n) l =
    let (g, enc, e) = make_worker-signal (worker_name i) (worker_name-IsName i) in
    let (ws, e', ids) = make_workers-done (i + 1) n (omega arith) in
    (
      record {
        id = worker_name i;
        work_counter = 0;
        input = [];
        log = (g ∷ string_to_zmq_msg [] ∷ []) ∷ [];
      }
          ∷ ws,
      rw (e, lt→ltb (i + 1) (2 ^ 31) (omega arith), e') refl,
      ap (◌∷◌ (worker_name i)) ids,
    )

make_clients-done :
    (i n : ℕ)
    → i + n < 2 ^ 31
    → (cs : List Client) × (make_clients i n ≡ done cs)
      × (map (λ c. c.id) cs ≡ numbered client_name i n)
unfolding make_clients
make_clients-done i zero l = ([], refl, refl)
make_clients-done i (suc n) l =
    let (cs, e, ids) = make_clients-done (i + 1) n (omega arith) in
    (
      record { id = client_name i; input = []; log = [] } ∷ cs,
      rw (lt→ltb (i + 1) (2 ^ 31) (omega arith), e) refl,
      ap (◌∷◌ (client_name i)) ids,
    )

-- Below 2 ^ 31 clients and workers, which the loops' int i can count, buildCluster gives a new cluster
-- the configured numbers of clients and workers, without a fault, under names that differ.
pub build_cluster-names :
    (c : OneCluster)
    → c.clients ≡ []
    → c.workers ≡ []
    → c.cluster_cfg.client_num < 2 ^ 31
    → c.cluster_cfg.worker_num < 2 ^ 31
    → (c' : OneCluster) × (build_cluster c ≡ done c')
      × (map (λ k. k.id) c'.clients ≡ numbered client_name 0 c.cluster_cfg.client_num)
      × AllDistinct (numbered client_name 0 c.cluster_cfg.client_num)
      × (map (λ w. w.id) c'.workers ≡ numbered worker_name 0 c.cluster_cfg.worker_num)
      × AllDistinct (numbered worker_name 0 c.cluster_cfg.worker_num)
unfolding build_cluster
build_cluster-names c no_clients no_workers few_clients few_workers =
    let (cs, e1, ids1) = make_clients-done 0 c.cluster_cfg.client_num (omega arith) in
    let (ws, e2, ids2) = make_workers-done 0 c.cluster_cfg.worker_num (omega arith) in
    (
      record c { clients = cs; workers = ws },
      rw (e1, e2, no_clients, no_workers) refl,
      ids1,
      numbered-AllDistinct client_name client_name-injective 0 _ (omega arith),
      ids2,
      numbered-AllDistinct worker_name worker_name-injective 0 _ (omega arith),
    )
