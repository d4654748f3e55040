-- ===== src/Floor/Tokens.antt =====
-- Counting where the workers of a cluster are.
use sim_tools.Base.{
  ℕ, zero, suc, ◌+◌, ◌<◌, ◌≤◌, ◌≡◌, refl, sym, ◌≢◌, List, [], ◌∷◌, ◌++◌, length, All, All-append,
  Bool-cases, inl, inr, arith,
}
use sim_tools.Base.Bytes.{Bytes, bytes_eq, bytes_eq_iff}
use sim_tools.Cluster.Balancer.{Delivery}
use sim_tools.Core.Doubles.{Doubles}
use sim_tools.Floor.Run.{Letter}
use sim_tools.Floor.View.{
  Hub, Bench, hits, waiting, unheard, called, load, Known, IsSound, IsOrderly, Ledger, IsReply,
  Asked, Passed,
}
use native.Mathlib.Decide.{dec_lt}

pub hits_self : (x y : Bytes) → x ≡ y → hits x y ≡ 1
hits_self x y e = rw ((bytes_eq_iff x y).1 e)

pub hits_other : (x y : Bytes) → x ≢ y → hits x y ≡ 0
hits_other x y h = elim (Bool-cases (bytes_eq x y)) [
  | inl same ↦ absurd (h ((bytes_eq_iff x y).0 same))
  | inr differs ↦ rw differs
]

pub waiting-append : (x : Bytes) (a b : List Bytes) → waiting x (a ++ b) ≡ waiting x a + waiting x b
unfolding waiting
waiting-append x [] b = omega arith
waiting-append x (y ∷ a) b = omega (arith, waiting-append x a b)

pub unheard-append :
    (x : Bytes) (a b : List Letter) → unheard x (a ++ b) ≡ unheard x a + unheard x b
unfolding unheard
unheard-append x [] b = omega arith
unheard-append x (l ∷ a) b = omega (arith, unheard-append x a b)

pub called-append : (x : Bytes) (a b : List Delivery) → called x (a ++ b) ≡ called x a + called x b
unfolding called
called-append x [] b = omega arith
called-append x (d ∷ a) b = omega (arith, called-append x a b)

pub load-append : (a b : List Delivery) → load (a ++ b) ≡ load a + load b
unfolding load
load-append [] b = omega arith
load-append (d ∷ a) b = omega (arith, load-append a b)

module _ (name : ℕ → Bytes) where
  -- How many of the first n workers have the name, and how often they wait in the queue.
  someone : ℕ → Bytes → ℕ
  someone zero x = 0
  someone (suc n) x = someone n x + hits (name n) x

  present : ℕ → List Bytes → ℕ
  present zero q = 0
  present (suc n) q = present n q + waiting (name n) q

  present-nil : (n : ℕ) → present n [] ≡ 0
  unfolding present waiting
  present-nil zero = refl
  present-nil (suc n) = omega (arith, present-nil n)

  present-cons :
      (n : ℕ) (x : Bytes) (q : List Bytes) → present n (x ∷ q) ≡ someone n x + present n q
  unfolding present someone waiting
  present-cons zero x q = omega arith
  present-cons (suc n) x q = omega (arith, present-cons n x q)

  someone_known : (n i : ℕ) (x : Bytes) → i < n → x ≡ name i → 1 ≤ someone n x
  unfolding someone
  someone_known zero i x h e = absurd (omega arith)
  someone_known (suc n) i x h e = elim (dec_lt i n) [
    | yes below ↦ omega (arith, someone_known n i x below e)
    | no last ↦
        (let same : n ≡ i = omega arith in omega (arith, hits_self (name n) x (rw same (sym e))))
  ]

  length-le-present : (n : ℕ) (q : List Bytes) → All (Known n name) q → length q ≤ present n q
  length-le-present n [] h = omega arith
  length-le-present n (x ∷ q) h =
      let (i, below, e) = h.0 in
      omega (arith, present-cons n x q, someone_known n i x below e, length-le-present n q h.1)

  present-le :
      (n : ℕ) (q : List Bytes) → ((i : ℕ) → i < n → waiting (name i) q ≤ 1) → present n q ≤ n
  unfolding present
  present-le zero q h = omega arith
  present-le (suc n) q h =
      omega (arith, h n (omega arith), present-le n q (λ i below. h i (omega arith)))

module _ {D : Doubles} {g : Ledger} {cluster : Bytes} {n : ℕ} {name : ℕ → Bytes} {h : Hub}
    {bench : ℕ → Bench} (o : IsOrderly D g cluster n name h bench) where
  -- The queue is no longer than there are workers.
  pub queue_bounds : length h.queue ≤ n
  queue_bounds = omega (
    arith,
    length-le-present name n h.queue o.queue_known,
    present-le name n h.queue (λ i below. omega (arith, o.one_turn i below)),
  )

  -- A change at the broker that keeps the count of every worker's turns.
  pub advance :
      (q : List Bytes) (ds : List Delivery) (back front cloud : List Letter)
      → ((x : Bytes)
          → waiting x q + called x ds + unheard x back ≡ waiting x h.queue + unheard x h.back)
      → All (Known n name) q
      → All (λ d. IsSound D g cluster n name d.target d.envelope d.payload) ds
      → All (λ l. Known n name l.envelope.from × IsReply D g cluster l.envelope l.payload) back
      → All (Asked D g) front
      → All (Passed D g) cloud
      → IsOrderly D g cluster n name
          (record { queue = q; back = back; front = front; cloud = cloud; out = h.out ++ ds })
          bench
  advance q ds back front cloud same known sound heard asked passed = record {
    one_turn = λ i below.
        omega (arith, o.one_turn i below, same (name i), called-append (name i) h.out ds);
    queue_known = known;
    back_heard = heard;
    out_sound =
        All-append (λ d. IsSound D g cluster n name d.target d.envelope d.payload) h.out ds
          o.out_sound sound;
    front_asked = asked;
    cloud_passed = passed;
    jobs_due = o.jobs_due;
    answers_own = o.answers_own;
  }
