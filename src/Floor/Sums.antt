-- ===== src/Floor/Sums.antt =====
-- Sums over the workers of a cluster.
use sim_tools.Base.{
  update, ℕ, zero, suc, ◌+◌, ◌*◌, ◌<◌, ◌≤◌, ◌≡◌, refl, sym, ap, ◌∙◌, ◌≢◌, ◌==◌, ==_iff, Bool-cases,
  inl, inr, arith,
}
use sim_tools.Base.Bytes.{Bytes, bytes_eq, bytes_eq_iff}
use sim_tools.Cluster.Balancer.{Target, client, worker, super_broker}
use sim_tools.Floor.View.{hits, aimed, moves_left}
use sim_tools.Floor.Tokens.{hits_self, hits_other}
use native.Mathlib.Decide.{dec_lt}

unfoldable pub sum : ℕ → (ℕ → ℕ) → ℕ
sum zero f = 0
sum (suc n) f = sum n f + f n

sum_cong : (n : ℕ) (f g : ℕ → ℕ) → ((i : ℕ) → i < n → f i ≡ g i) → sum n f ≡ sum n g
unfolding sum
sum_cong zero f g h = refl
sum_cong (suc n) f g h =
    omega (arith, h n (omega arith), sum_cong n f g (λ i below. h i (omega arith)))

pub sum_grown :
    (n : ℕ) (f g d : ℕ → ℕ) → ((i : ℕ) → g i ≡ f i + 4 * d i) → sum n g ≡ sum n f + 4 * sum n d
unfolding sum
sum_grown zero f g d h = refl
sum_grown (suc n) f g d h = omega (arith, h n, sum_grown n f g d h)

update_same {ℓ} : {A : Type ℓ} (f : ℕ → A) (i j : ℕ) (a : A) → i ≡ j → update f i a j ≡ a
update_same f i j a e = rw ((==_iff i j).1 e) refl

update_other {ℓ} : {A : Type ℓ} (f : ℕ → A) (i j : ℕ) (a : A) → i ≢ j → update f i a j ≡ f j
update_other f i j a h = elim (Bool-cases (i == j)) [
  | inl same ↦ absurd (h ((==_iff i j).0 same))
  | inr other ↦ rw other refl
]

-- A sum in which one worker has changed.
pub sum_update {ℓ} :
    {A : Type ℓ} (g : A → ℕ) (n : ℕ) (f : ℕ → A) (i : ℕ) (a : A)
    → i < n
    → sum n (λ j. g (update f i a j)) + g (f i) ≡ sum n (λ j. g (f j)) + g a
unfolding sum
sum_update g zero f i a below = absurd (omega arith)
sum_update g (suc n) f i a below = elim (dec_lt i n) [
  | yes before ↦
      (let kept = ap g (update_other f i n a (λ e. absurd (omega (arith, e)))) in
        omega (arith, sum_update g n f i a before, kept))
  | no last ↦
      (let here : i ≡ n = omega arith in
        let others =
          sum_cong n (λ j. g (update f i a j)) (λ j. g (f j))
            (λ j lower. ap g (update_other f i j a (λ e. absurd (omega (arith, e))))) in
        omega (arith, others, ap g (update_same f i n a here), ap (λ j. g (f j)) here))
]

module _ (name : ℕ → Bytes) where
  sum-hits_none :
      (n : ℕ) (x : Bytes) → ((i : ℕ) → i < n → name i ≢ x) → sum n (λ i. hits (name i) x) ≡ 0
  unfolding sum
  sum-hits_none zero x h = refl
  sum-hits_none (suc n) x h = omega (
    arith,
    hits_other (name n) x (h n (omega arith)),
    sum-hits_none n x (λ i below. h i (omega arith)),
  )

  sum-hits :
      (n : ℕ) (x : Bytes)
      → ((i j : ℕ) → i < n → j < n → name i ≡ name j → i ≡ j)
      → sum n (λ i. hits (name i) x) ≤ 1
  unfolding sum
  sum-hits zero x distinct = omega arith
  sum-hits (suc n) x distinct = elim (Bool-cases (bytes_eq (name n) x)) [
    | inl same ↦
        (let e = (bytes_eq_iff (name n) x).0 same in
          omega (
            arith,
            hits_self (name n) x e,
            sum-hits_none n x (λ i below found.
                absurd (omega (arith, distinct i n (omega arith) (omega arith) (found ∙ sym e)))),
          ))
    | inr other ↦
        rw other
          (omega (arith, sum-hits n x (λ i j hi hj e. distinct i j (omega arith) (omega arith) e)))
  ]

  sum_zeros : (n : ℕ) → sum n (λ i. 0) ≡ 0
  unfolding sum
  sum_zeros zero = refl
  sum_zeros (suc n) = omega (arith, sum_zeros n)

  -- A message is worth the task that it brings, and a move.
  pub sum-aimed :
      (n : ℕ) (t : Target)
      → ((i j : ℕ) → i < n → j < n → name i ≡ name j → i ≡ j)
      → 4 * sum n (λ i. aimed (name i) t) + 1 ≤ moves_left t
  sum-aimed n (client c) distinct = omega (arith, sum_zeros n)
  sum-aimed n (worker x) distinct = omega (arith, sum-hits n x distinct)
  sum-aimed n super_broker distinct = omega (arith, sum_zeros n)
