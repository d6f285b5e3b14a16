-- ===== src/Measure/Sizes.antt =====
-- performance/multi-node/rdm_one_sided.c, rdm_pingpong.c and rdm_mbw_mr.c: the loop over the sizes
-- of messages, from 1 on, each twice the one before.
use native.Mathlib.Nat.{pow-suc}
use cray_tests.Prelude.{
  ℕ, zero, suc, ◌+◌, ◌*◌, ◌^◌, ◌<◌, ◌≤◌, ◌≡◌, refl, sym, ap, ◌∙◌, arith, Bool-cases, inl, inr,
  Option, none, some, List, [], ◌∷◌, get_elem?, leb, if◌then◌else◌,
}

-- `for (size = ...; size <= max; size *= 2)`, on fuel.
unfoldable pub sizes_from : ℕ → ℕ → ℕ → List ℕ
sizes_from zero size max = []
sizes_from (suc fuel) size max =
    let rest = size ∷ sizes_from fuel (size * 2) max in if leb size max then rest else []

-- A round doubles the size, so `max` rounds are enough.
unfoldable pub sizes : ℕ → List ℕ
unfolding sizes_from
sizes max = sizes_from max 1 max

pow_pos : (k : ℕ) → 0 < 2 ^ k
pow_pos zero = omega arith
pow_pos (suc k) = omega (arith, pow_pos k, pow-suc 2 k)

le-mul-pow : (size k : ℕ) → size ≤ size * 2 ^ k
le-mul-pow size k = let p = pow_pos k in grind arith

mul-pow-suc : (size k : ℕ) → size * 2 * 2 ^ k ≡ size * 2 ^ suc k
mul-pow-suc size k = let p = pow-suc 2 k in grind arith

abbrev size_at : ℕ → ℕ → ℕ → Option ℕ
size_at size max k = if leb (size * 2 ^ k) max then some (size * 2 ^ k) else none

too_large : (size max k : ℕ) → max < size → size_at size max k ≡ none
too_large size max k lt = let le = le-mul-pow size k in ground arith

get_elem?-sizes_from :
    (fuel size max k : ℕ)
    → 0 < size
    → max < size + fuel
    → get_elem? (sizes_from fuel size max) k ≡ size_at size max k
unfolding sizes_from
get_elem?-sizes_from zero size max k pos lt = sym (too_large size max k (omega arith))
get_elem?-sizes_from (suc fuel) size max zero pos lt = ground arith
get_elem?-sizes_from (suc fuel) size max (suc k) pos lt = elim (Bool-cases (leb size max)) [
  | inr gt ↦ rw gt (sym (too_large size max (suc k) (ground arith)))
  | inl le ↦ rw le (
      get_elem?-sizes_from fuel (size * 2) max k (omega arith) (omega arith)
      ∙ ap (λ n. if leb n max then some n else none) (mul-pow-suc size k))
]

-- A list of sizes, the first one given, each twice the one before.
abbrev pub Doubling : ℕ → List ℕ → Type 0
Doubling size [] = Unit {0}
Doubling size (x ∷ xs) = (x ≡ size) × Doubling (size * 2) xs

pub sizes_from-Doubling : (fuel size max : ℕ) → Doubling size (sizes_from fuel size max)
unfolding sizes_from
sizes_from-Doubling zero size max = tt
sizes_from-Doubling (suc fuel) size max = elim (Bool-cases (leb size max)) [
  | inl le ↦ rw le (refl, sizes_from-Doubling fuel (size * 2) max)
  | inr gt ↦ rw gt tt
]

pub sizes-Doubling : (max : ℕ) → Doubling 1 (sizes max)
unfolding sizes
sizes-Doubling max = sizes_from-Doubling max 1 max

abbrev pub AllAtMost : ℕ → List ℕ → Type 0
AllAtMost max [] = Unit {0}
AllAtMost max (x ∷ xs) = (x ≤ max) × AllAtMost max xs

sizes_from-AllAtMost : (fuel size max : ℕ) → AllAtMost max (sizes_from fuel size max)
unfolding sizes_from
sizes_from-AllAtMost zero size max = tt
sizes_from-AllAtMost (suc fuel) size max = elim (Bool-cases (leb size max)) [
  | inl le ↦ rw le (ground arith, sizes_from-AllAtMost fuel (size * 2) max)
  | inr gt ↦ rw gt tt
]

pub sizes-AllAtMost : (max : ℕ) → AllAtMost max (sizes max)
unfolding sizes
sizes-AllAtMost max = sizes_from-AllAtMost max 1 max

-- The loop goes through exactly the powers of two that are at most `max`, in order, and ends.
pub get_elem?-sizes :
    (max k : ℕ) → get_elem? (sizes max) k ≡ (if leb (2 ^ k) max then some (2 ^ k) else none)
unfolding sizes
get_elem?-sizes max k =
    let one : 1 * 2 ^ k ≡ 2 ^ k = omega arith in
    get_elem?-sizes_from max 1 max k (omega arith) (omega arith)
    ∙ ap (λ n. if leb n max then some n else none) one
