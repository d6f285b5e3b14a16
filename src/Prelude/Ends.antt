-- ===== src/Prelude/Ends.antt =====
-- How a C function ends: with a value, in a failed `assert` or an `abort()`, or in undefined
-- behaviour such as a read past the end of a buffer.
use mathlib.Core.Bool.{Bool, true, false}
use mathlib.Core.Path.{◌≡◌, refl}

pub data Outcome {ℓ} (A : Type ℓ) : Type ℓ where
  ok : A → Outcome A
  aborted : Outcome A
  fault : Outcome A

infixl 5 ◌>>=◌
abbrev pub ◌>>=◌ {ℓ κ} : {A : Type ℓ} {B : Type κ} → Outcome A → (A → Outcome B) → Outcome B
ok a >>= f = f a
aborted >>= f = aborted
fault >>= f = fault

pub bind_assoc {ℓ κ μ} :
    {A : Type ℓ} {B : Type κ} {C : Type μ} (m : Outcome A) (f : A → Outcome B) (g : B → Outcome C)
    → m >>= f >>= g ≡ m >>= (λ a. f a >>= g)
bind_assoc (ok a) f g = refl
bind_assoc aborted f g = refl
bind_assoc fault f g = refl

-- `assert(b)`
abbrev pub assert {ℓ} : {A : Type ℓ} → Bool → A → Outcome A
assert true a = ok a
assert false a = aborted
