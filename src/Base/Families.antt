-- ===== src/Base/Families.antt =====
-- Families of objects, one for each number, as main programs keep them.
use Prim.Native.Nat.{ℕ}
use mathlib.Core.Path.{subst}
use mathlib.Core.Logic.{◌≢◌, inl, inr}
use native.Mathlib.Omega.{arith}
use sim_tools.Base.Tests.{◌==◌, ==_iff, if◌then◌else◌, Bool-cases}

abbrev pub update {ℓ} : {A : Type ℓ} → (ℕ → A) → ℕ → A → ℕ → A
update f i a j = if i == j then a else f j

-- What holds of every member of an updated family.
pub update_all {ℓ κ} :
    {A : Type ℓ} (P : ℕ → A → Type κ) (f : ℕ → A) (i : ℕ) (a : A)
    → P i a
    → ((j : ℕ) → i ≢ j → P j (f j))
    → (j : ℕ) → P j (update f i a j)
update_all P f i a h k j = elim (Bool-cases (i == j)) [
  | inl same ↦ rw same (subst (λ (x : ℕ). P x a) ((==_iff i j).0 same) h)
  | inr other ↦ rw other (k j (λ e. absurd (ground (arith, ==_iff i j))))
]

-- The same for two families that are updated at one place.
pub update_both {ℓ κ μ} :
    {A : Type ℓ} {B : Type κ} (P : ℕ → A → B → Type μ) (f : ℕ → A) (g : ℕ → B) (i : ℕ) (a : A)
    (b : B)
    → P i a b
    → ((j : ℕ) → P j (f j) (g j))
    → (j : ℕ) → P j (update f i a j) (update g i b j)
update_both P f g i a b h k j = elim (Bool-cases (i == j)) [
  | inl same ↦ rw same (subst (λ (x : ℕ). P x a b) ((==_iff i j).0 same) h)
  | inr other ↦ rw other (k j)
]
