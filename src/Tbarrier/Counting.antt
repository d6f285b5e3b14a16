-- ===== src/Tbarrier/Counting.antt =====
-- Sums over the first `n` members of a family, and how they change when one member does.
use cray_tests.Prelude.{ℕ, zero, suc, ◌+◌, ◌<◌, ◌≤◌, ◌≡◌, ◌≢◌, refl, arith, dec_lt, ℕ_discrete}
use mathlib.Core.Logic.{ite}
use cray_tests.Tbarrier.{update}

-- What holds of the new member and of each other one holds of the whole updated family.
pub update_elim {ℓ κ} :
    {A : Type ℓ} (P : A → Type κ) (f : ℕ → A) (i j : ℕ) (a : A)
    → P a
    → (i ≢ j → P (f j))
    → P (update f i a j)
update_elim P f i j a new old = elim (ℕ_discrete i j) as (λ d. P (ite d a (f j))) [
  | yes e ↦ new
  | no ne ↦ old ne
]

module _ {ℓ} {A : Type ℓ} (w : A → ℕ) where
  pub sum_to : ℕ → (ℕ → A) → ℕ
  sum_to zero f = 0
  sum_to (suc n) f = w (f n) + sum_to n f

  sum_to_above : (n i : ℕ) (f : ℕ → A) (a : A) → n ≤ i → sum_to n (update f i a) ≡ sum_to n f
  unfolding sum_to
  sum_to_above zero i f a h = refl
  sum_to_above (suc n) i f a h = ground (arith, sum_to_above n i f a)

  pub sum_to-update :
      (n i : ℕ) (f : ℕ → A) (a : A) → i < n → sum_to n (update f i a) + w (f i) ≡ sum_to n f + w a
  unfolding sum_to
  sum_to-update zero i f a h = absurd (omega arith)
  sum_to-update (suc n) i f a h = elim (dec_lt i n) [
    | yes low ↦ ground (arith, sum_to-update n i f a low)
    | no top ↦ ground (arith, sum_to_above n i f a)
  ]

  pub le-sum_to : (n i : ℕ) (f : ℕ → A) → i < n → w (f i) ≤ sum_to n f
  unfolding sum_to
  le-sum_to zero i f h = absurd (omega arith)
  le-sum_to (suc n) i f h = elim (dec_lt i n) [
    | yes low ↦ omega (arith, le-sum_to n i f low)
    | no top ↦ let e : i ≡ n = omega arith in rw e (omega arith)
  ]

  pub sum_to-le : ((a : A) → w a ≤ 1) → (n : ℕ) (f : ℕ → A) → sum_to n f ≤ n
  unfolding sum_to
  sum_to-le small zero f = omega arith
  sum_to-le small (suc n) f = omega (arith, small (f n), sum_to-le small n f)

  -- A sum of ones and zeros that reaches its bound has no zero.
  pub sum_to_full :
      ((a : A) → w a ≤ 1) → (n i : ℕ) (f : ℕ → A) → i < n → sum_to n f ≡ n → w (f i) ≡ 1
  unfolding sum_to
  sum_to_full small zero i f h e = absurd (omega arith)
  sum_to_full small (suc n) i f h e = elim (dec_lt i n) [
    | yes low ↦ sum_to_full small n i f low (omega (arith, small (f n), sum_to-le small n f))
    | no top ↦
        let last : i ≡ n = omega arith in rw last (omega (arith, small (f n), sum_to-le small n f))
  ]

  pub sum_to-zero : (n : ℕ) (f : ℕ → A) → ((i : ℕ) → i < n → w (f i) ≡ 0) → sum_to n f ≡ 0
  unfolding sum_to
  sum_to-zero zero f h = refl
  sum_to-zero (suc n) f h =
      omega (arith, h n (omega arith), sum_to-zero n f (λ i b. h i (omega arith)))

  -- Where a sum is positive some member is, and where it falls short some member is zero.
  pub sum_to_positive : (n : ℕ) (f : ℕ → A) → 0 < sum_to n f → (i : ℕ) × (i < n) × (0 < w (f i))
  unfolding sum_to
  sum_to_positive zero f h = absurd (omega arith)
  sum_to_positive (suc n) f h = elim (dec_lt 0 (w (f n))) [
    | yes here ↦ (n, omega arith, here)
    | no low ↦ let (i, b, p) = sum_to_positive n f (omega arith) in (i, omega arith, p)
  ]

  pub sum_to_short : (n : ℕ) (f : ℕ → A) → sum_to n f < n → (i : ℕ) × (i < n) × (w (f i) ≡ 0)
  unfolding sum_to
  sum_to_short zero f h = absurd (omega arith)
  sum_to_short (suc n) f h = elim (dec_lt 0 (w (f n))) [
    | yes here ↦ let (i, b, p) = sum_to_short n f (omega arith) in (i, omega arith, p)
    | no low ↦ (n, omega arith, omega arith)
  ]
