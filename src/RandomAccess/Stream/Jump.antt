-- ===== src/RandomAccess/Stream/Jump.antt =====
-- random_access.c: `generate_initial_xor_val` reaches the place of the stream that its seed names.
use native.Mathlib.Nat.{pow-suc, one-le-pow, div-lt_iff_lt-mul}
use cray_tests.Prelude.{
  ℕ, zero, suc, ◌+◌, ◌-◌, ◌*◌, ◌/◌, ◌%◌, ◌^◌, ◌<◌, ◌≤◌, ◌≡◌, refl, sym, ap, ◌∙◌, arith, ltb,
  if◌then◌else◌, Bool-cases, ltb→lt, ◌==◌, ==_iff, inl, inr, ◌⊎◌, some, false,
}
use cray_tests.RandomAccess.Stream.{
  next_ran, bit, jump, jump_from, top_bit, reduce_seed, period, generate_initial_xor_val,
}
use cray_tests.RandomAccess.Stream.Linear.{serial}
use cray_tests.RandomAccess.Stream.Square.{combine-serial, shift_suc}

-- One round of the jump: the square, and one more step if the next bit is set.
jump_round :
    (seed i : ℕ)
    → let squared = serial (seed / 2 ^ suc i + seed / 2 ^ suc i) in
      (if bit seed i then next_ran squared else squared) ≡ serial (seed / 2 ^ i)
unfolding serial
jump_round seed i = elim (Bool-cases (bit seed i)) [
  | inl e ↦
      let odd : suc (seed / 2 ^ suc i + seed / 2 ^ suc i) ≡ seed / 2 ^ i =
        omega (arith, shift_suc seed i, (==_iff (seed / 2 ^ i % 2) 1).0 e) in
      rw e (ap serial odd)
  | inr e ↦
      let even : seed / 2 ^ suc i + seed / 2 ^ suc i ≡ seed / 2 ^ i =
        ground (arith, shift_suc seed i) in
      rw e (ap serial even)
]

jump-serial : (i seed : ℕ) → jump i seed (serial (seed / 2 ^ i)) ≡ serial seed
unfolding jump
jump-serial zero seed = ap serial (omega arith)
jump-serial (suc i) seed =
    ap (λ squared. jump i seed (if bit seed i then next_ran squared else squared))
      (combine-serial (seed / 2 ^ suc i))
    ∙ ap (jump i seed) (jump_round seed i)
    ∙ jump-serial i seed

-- For a seed that is not zero the search finds its highest bit.
top_bit_found :
    (n seed : ℕ)
    → seed < 2 ^ n
    → 0 < seed
    → (i : ℕ) × (top_bit n seed ≡ some i) × (seed / 2 ^ i ≡ 1)
unfolding top_bit
top_bit_found zero seed h pos = absurd (omega arith)
top_bit_found (suc n) seed h pos = elim (Bool-cases (bit seed n)) [
  | inl e ↦ (n, rw e, ground (arith, pow-suc 2 n, quotient_lt 2))
  | inr e ↦
      let (i, found, one) =
        top_bit_found n seed (ground (arith, pow-suc 2 n, quotient_lt 2, back 1)) pos in
      (i, rw e found, one)
]
  where
    quotient_lt : (y : ℕ) → seed < y * 2 ^ n → seed / 2 ^ n < y
    quotient_lt y = (div-lt_iff_lt-mul (one-le-pow n 2 (omega arith))).1

    back : (y : ℕ) → seed / 2 ^ n < y → seed < y * 2 ^ n
    back y = (div-lt_iff_lt-mul (one-le-pow n 2 (omega arith))).0

-- The reduction takes whole periods away, and stops at most one period up.
reduce_seed_lem :
    (fuel seed : ℕ)
    → seed ≤ fuel
    → (k : ℕ) × (seed ≡ k * period + reduce_seed fuel seed)
      × (reduce_seed fuel seed ≤ period)
      × ((seed ≡ 0) ⊎ (0 < reduce_seed fuel seed))
unfolding reduce_seed
reduce_seed_lem zero seed h = (0, omega arith, omega arith, omega arith)
reduce_seed_lem (suc fuel) seed h = elim (Bool-cases (ltb period seed)) [
  | inl e ↦
      let over : period < seed = ltb→lt period seed e in
      let (k, whole, small, pos) = reduce_seed_lem fuel (seed - period) (omega arith) in
      (k + 1, rw e (omega arith), rw e small, rw e (inr (omega arith)))
  | inr e ↦ (0, rw e (omega arith), rw e (ground arith), rw e (omega arith))
]

-- From the highest bit of the seed the jump starts at place 1 of the stream.
jump_top : (i seed : ℕ) → seed / 2 ^ i ≡ 1 → jump i seed 2 ≡ serial seed
jump_top i seed one = ap (jump i seed) (second ∙ ap serial (sym one)) ∙ jump-serial i seed
  where
    second : 2 ≡ serial 1
    second = unfold serial next_ran in refl

-- The jump on a reduced seed.
jump_reduced :
    (seed : ℕ)
    → seed ≤ period
    → (if seed == 0 then 1 else jump_from (top_bit 63 seed) seed) ≡ serial seed
unfolding jump_from
jump_reduced zero h = unfold serial in refl
jump_reduced (suc n) h =
    let (i, found, one) = top_bit_found 63 (suc n) (omega arith) (omega arith) in
    let nonzero : (suc n == 0) ≡ false = ground arith in
    rw (nonzero, found) (jump_top i (suc n) one)

-- For every seed, `generate_initial_xor_val` returns the value at place r of the serial stream,
-- where r is the seed less whole periods, at most one period, and 0 only for the seed 0.
pub generate_initial_xor_val-eq-serial :
    (seed : ℕ)
    → (k r : ℕ) × (seed ≡ k * period + r)
      × (r ≤ period)
      × ((seed ≡ 0) ⊎ (0 < r))
      × (generate_initial_xor_val seed ≡ serial r)
unfolding generate_initial_xor_val
generate_initial_xor_val-eq-serial seed =
    let (k, whole, small, pos) = reduce_seed_lem seed seed (omega arith) in
    (k, reduce_seed seed seed, whole, small, pos, jump_reduced (reduce_seed seed seed) small)
