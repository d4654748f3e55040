-- ===== src/Base/Outcome.antt =====
-- What running a piece of the source comes to: a result, a wait for input that has not arrived,
-- a fault, which is an access outside an array or a buffer or the overflow of a signed integer, or a
-- C++ exception that escapes.
use mathlib.Core.Bool.{Bool, true, false}
use mathlib.Core.List.{List, [], ◌∷◌}

pub data Outcome {ℓ} (A : Type ℓ) : Type ℓ where
  done : A → Outcome A
  blocked fault thrown : Outcome A

infixl 5 ◌>>=◌ ◌>>◌
abbrev pub ◌>>=◌ {ℓ κ} : {A : Type ℓ} {B : Type κ} → Outcome A → (A → Outcome B) → Outcome B
done a >>= f = f a
blocked >>= f = blocked
fault >>= f = fault
thrown >>= f = thrown

abbrev pub ◌>>◌ {ℓ} : {B : Type ℓ} → Outcome (Unit {0}) → Outcome B → Outcome B
m >> k = m >>= λ _. k

-- A memory access, or a signed integer, that is in bounds if the test holds.
abbrev pub in_bounds : Bool → Outcome (Unit {0})
in_bounds true = done tt
in_bounds false = fault

-- The next frame of a socket's input.
abbrev pub recv {ℓ} : {F : Type ℓ} → List F → Outcome (F × List F)
recv [] = blocked
recv (f ∷ fs) = done (f, fs)
