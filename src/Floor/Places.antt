-- ===== src/Floor/Places.antt =====
-- Where a worker can be found, from its turn.
use sim_tools.Base.{
  ℕ, ◌+◌, ◌<◌, ◌≤◌, ◌≡◌, refl, sym, subst, ◌≢◌, List, [], ◌∷◌, length, All, Bool-cases, inl, inr,
  arith,
}
use sim_tools.Base.Bytes.{Bytes, bytes_eq, bytes_eq_iff}
use sim_tools.Cluster.Naming.{AllDistinct}
use sim_tools.Cluster.Worker.{Worker}
use sim_tools.Cluster.Broker.{Sent}
use sim_tools.Cluster.Balancer.{Delivery, CarriesAll}
use sim_tools.Floor.Run.{Letter, HoldsRouted}
use sim_tools.Floor.View.{ShowsBench, waiting, Known}
use sim_tools.Floor.Tokens.{hits_self}
use mathlib.Core.List.{Memᴰ}

-- Who waits in the queue.
pub Memᴰ-waiting : (x : Bytes) (q : List Bytes) → Memᴰ x q → 1 ≤ waiting x q
unfolding waiting
Memᴰ-waiting x [] m = elim m [ ]
Memᴰ-waiting x (y ∷ q) (Memᴰ.head e) = omega (arith, hits_self x y e)
Memᴰ-waiting x (y ∷ q) (Memᴰ.tail m) = omega (arith, Memᴰ-waiting x q m)

pub waiting-Memᴰ : (x : Bytes) (q : List Bytes) → 1 ≤ waiting x q → Memᴰ x q
unfolding waiting
waiting-Memᴰ x [] h = absurd (omega arith)
waiting-Memᴰ x (y ∷ q) h = elim (Bool-cases (bytes_eq x y)) [
  | inl same ↦ Memᴰ.head ((bytes_eq_iff x y).0 same)
  | inr other ↦
      (let rest : 1 ≤ 0 + waiting x q = rw other at h in Memᴰ.tail (waiting-Memᴰ x q (omega arith)))
]

waiting-none : (x : Bytes) (q : List Bytes) → waiting x q ≡ 0 → All (λ y. x ≢ y) q
unfolding waiting
waiting-none x [] h = tt
waiting-none x (y ∷ q) h =
    (λ e. absurd (omega (arith, hits_self x y e)), waiting-none x q (omega arith))

-- A queue in which nobody waits twice.
pub waiting-AllDistinct :
    (n : ℕ) (name : ℕ → Bytes) (q : List Bytes)
    → All (Known n name) q
    → ((i : ℕ) → i < n → waiting (name i) q ≤ 1)
    → AllDistinct q
unfolding waiting
waiting-AllDistinct n name [] known once = tt
waiting-AllDistinct n name (x ∷ q) known once =
    let (i, below, e) = known.0 in
    let others : All (λ y. name i ≢ y) q =
      waiting-none (name i) q (omega (arith, once i below, hits_self (name i) x (sym e))) in
    (
      subst (λ x. All (λ y. x ≢ y) q) (sym e) others,
      waiting-AllDistinct n name q known.1 (λ j below'. omega (arith, once j below')),
    )

-- A worker that holds nothing, and one that holds a task or a message.
module _ (name : Bytes) (w : Worker) where
  pub without_work :
      (jobs answers : List Letter)
      → ShowsBench name w (record { jobs = jobs; answers = answers })
      → length jobs + length answers ≡ 0
      → (w.input ≡ []) × (w.log ≡ [])
  without_work [] [] s none = (s.jobs_read, s.answers_sent)
  without_work [] (l ∷ ls) s none = absurd (omega arith)
  without_work (l ∷ ls) answers s none = absurd (omega arith)

  pub idle :
      (jobs answers : List Letter)
      → ShowsBench name w (record { jobs = jobs; answers = answers })
      → w.input ≡ []
      → w.log ≡ []
      → length jobs + length answers ≡ 0
  idle [] [] s no_input no_log = refl
  idle [] (l ∷ ls) s no_input no_log = let (f, rest, e, enc, more) = s.answers_sent in absurd (cc)
  idle (l ∷ ls) answers s no_input no_log = let (f, rest, e, enc, more) = s.jobs_read in absurd (cc)

-- A broker that has nothing to read, and has sent nothing.
pub no_letters : (ls : List Letter) (fs : List Bytes) → HoldsRouted ls fs → fs ≡ [] → ls ≡ []
no_letters [] fs h e = refl
no_letters (l ∷ ls) fs (id, f, rest, e', enc, more) e = absurd (cc)

pub no_deliveries :
    (log : List Sent) (out : List Delivery) → CarriesAll log out → log ≡ [] → out ≡ []
no_deliveries log [] h e = refl
no_deliveries [] (d ∷ ds) h e = elim h [ ]
no_deliveries (m ∷ log) (d ∷ ds) h e = absurd (cc)
