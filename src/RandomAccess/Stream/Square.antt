-- ===== src/RandomAccess/Stream/Square.antt =====
-- random_access.c, `generate_initial_xor_val`: the inner loop over `m2` takes the value at place k
-- of the stream to the value at place 2 k.
use native.Mathlib.Nat.{div-div-eq-div-mul, pow-suc}
use cray_tests.Prelude.{
  ℕ, zero, suc, ◌+◌, ◌*◌, ◌/◌, ◌%◌, ◌^◌, ◌<◌, bit_xor, dec_lt, ◌-◌, ◌≡◌, refl, sym, ap, ap₂, ◌∙◌,
  arith, if◌then◌else◌, Bool-cases, List, [], ◌∷◌, ◌==◌, inl, inr,
}
use cray_tests.Bits.{
  bit_xor_assoc, bit_xor_self, bit_xor-zero, bit_xor-lt, xor_low, xor_half, zero-bit_xor,
  bit_xor_halves,
}
use cray_tests.RandomAccess.Stream.{next_ran, fill_m2, m2, combine, bit}
use cray_tests.RandomAccess.Stream.Linear.{next_ran-lt, next_ran-xor, xor_swap, serial, serial-lt}

-- An entry counts when the lowest bit is set.
abbrev chosen : ℕ → ℕ → ℕ
chosen r m = if r % 2 == 1 then m else 0

chosen-xor : (m a b : ℕ) → chosen (bit_xor a b) m ≡ bit_xor (chosen a m) (chosen b m)
chosen-xor m a b =
    ground (arith, xor_low a b, bit_xor_self m, bit_xor-zero m, zero-bit_xor m, bit_xor-zero 0)

chosen-lt : (r m : ℕ) → m < 2 ^ 64 → chosen r m < 2 ^ 64
chosen-lt r m h = ground arith

-- The sum of the entries at the set bits of a word, lowest bit first.
weigh : List ℕ → ℕ → ℕ
weigh [] r = 0
weigh (m ∷ ms) r = bit_xor (chosen r m) (weigh ms (r / 2))

pub shift_suc : (r j : ℕ) → r / 2 ^ suc j ≡ r / 2 ^ j / 2
shift_suc r j = sym (div-div-eq-div-mul r (2 ^ j) 2 ∙ ap (λ t. r / t) (sym (pow-suc 2 j)))

half_shift : (r j : ℕ) → r / 2 ^ (j + 1) ≡ r / 2 ^ j / 2
half_shift r j = ap (λ t. r / 2 ^ t) exponent ∙ shift_suc r j
  where
    exponent : j + 1 ≡ suc j
    exponent = omega arith

combine-eq-weigh :
    (ms : List ℕ) (j r temp : ℕ) → combine ms j r temp ≡ bit_xor temp (weigh ms (r / 2 ^ j))
unfolding combine weigh
combine-eq-weigh [] j r temp = sym (bit_xor-zero temp)
combine-eq-weigh (m ∷ ms) j r temp =
    combine-eq-weigh ms (j + 1) r _
    ∙ ap₂ bit_xor added (ap (weigh ms) (half_shift r j))
    ∙ bit_xor_assoc temp _ _
  where
    added : (if bit r j then bit_xor temp m else temp) ≡ bit_xor temp (chosen (r / 2 ^ j) m)
    added = ground (arith, bit_xor-zero temp)

weigh-xor : (ms : List ℕ) (a b : ℕ) → weigh ms (bit_xor a b) ≡ bit_xor (weigh ms a) (weigh ms b)
unfolding weigh
weigh-xor [] a b = refl
weigh-xor (m ∷ ms) a b =
    ap₂ bit_xor (chosen-xor m a b) (ap (weigh ms) (xor_half a b) ∙ weigh-xor ms (a / 2) (b / 2))
    ∙ xor_swap _ _ _ _

weigh-lt : (n temp r : ℕ) → temp < 2 ^ 64 → weigh (fill_m2 n temp) r < 2 ^ 64
unfolding weigh fill_m2
weigh-lt zero temp r h = omega arith
weigh-lt (suc n) temp r h =
    bit_xor-lt 64 (chosen r temp) (weigh (fill_m2 n (next_ran (next_ran temp))) (r / 2))
      (chosen-lt r temp h) (weigh-lt n _ (r / 2) (next_ran-lt _))

-- Two steps, which is what separates the entries of `m2`.
abbrev next_two : ℕ → ℕ
next_two a = next_ran (next_ran a)

next_two-xor :
    (a b : ℕ) → a < 2 ^ 64 → b < 2 ^ 64 → next_two (bit_xor a b) ≡ bit_xor (next_two a) (next_two b)
next_two-xor a b h k =
    ap next_ran (next_ran-xor a b h k) ∙ next_ran-xor _ _ (next_ran-lt a) (next_ran-lt b)

chosen-next_two : (r m : ℕ) → chosen r (next_two m) ≡ next_two (chosen r m)
unfolding next_ran
chosen-next_two r m = elim (Bool-cases (r % 2 == 1)) [ inl e ↦ rw e | inr e ↦ rw e ]

weigh-next_two :
    (n temp r : ℕ)
    → temp < 2 ^ 64
    → weigh (fill_m2 n (next_two temp)) r ≡ next_two (weigh (fill_m2 n temp) r)
unfolding weigh fill_m2
weigh-next_two zero temp r h = unfold next_ran in refl
weigh-next_two (suc n) temp r h =
    ap₂ bit_xor (chosen-next_two r temp) (weigh-next_two n (next_two temp) (r / 2) (next_ran-lt _))
    ∙ sym
        (next_two-xor (chosen r temp) _ (chosen-lt r temp h) (weigh-lt n _ (r / 2) (next_ran-lt _)))

-- An entry above all bits of the word counts for nothing.
weigh_last : (n temp r : ℕ) → r < 2 ^ n → weigh (fill_m2 (suc n) temp) r ≡ weigh (fill_m2 n temp) r
unfolding weigh fill_m2
weigh_last zero temp r h = let e : r ≡ 0 = omega arith in rw e
weigh_last (suc n) temp r h =
    ap (bit_xor (chosen r temp)) (weigh_last n _ (r / 2) (omega (arith, pow-suc 2 n)))

next_ran_low : (y : ℕ) → y < 2 ^ 63 → next_ran y ≡ y * 2
unfolding next_ran
next_ran_low y h = ground (arith, bit_xor-zero (y * 2))

weigh_double :
    (n temp y : ℕ) → weigh (fill_m2 (suc n) temp) (y * 2) ≡ weigh (fill_m2 n (next_two temp)) y
unfolding weigh fill_m2
weigh_double n temp y =
    ap₂ bit_xor unset (ap (weigh (fill_m2 n (next_two temp))) half) ∙ zero-bit_xor _
  where
    unset : chosen (y * 2) temp ≡ 0
    unset = ground arith

    half : y * 2 / 2 ≡ y
    half = omega arith

weigh_low : (y : ℕ) → y < 2 ^ 63 → weigh m2 (next_ran y) ≡ next_two (weigh m2 y)
weigh_low y h =
    ap (weigh m2) (next_ran_low y h)
    ∙ weigh_double 63 1 y
    ∙ weigh-next_two 63 1 y (omega arith)
    ∙ ap next_two (sym (weigh_last 63 1 y h))

weigh_high : weigh m2 (next_ran (2 ^ 63)) ≡ next_two (weigh m2 (2 ^ 63))
unfolding weigh fill_m2 next_ran
weigh_high = refl

-- A word with bit 63 set is that bit and a lower word, and all parts are linear.
weigh_split :
    (z : ℕ)
    → z < 2 ^ 63
    → weigh m2 (next_ran (bit_xor (2 ^ 63) z)) ≡ next_two (weigh m2 (bit_xor (2 ^ 63) z))
weigh_split z h =
    ap (weigh m2) (next_ran-xor (2 ^ 63) z (omega arith) (omega arith))
    ∙ weigh-xor m2 _ _
    ∙ ap₂ bit_xor weigh_high (weigh_low z h)
    ∙ sym (
        ap next_two (weigh-xor m2 (2 ^ 63) z)
        ∙ next_two-xor _ _ (weigh-lt 64 1 _ (omega arith)) (weigh-lt 64 1 _ (omega arith)))

weigh-next_ran : (y : ℕ) → y < 2 ^ 64 → weigh m2 (next_ran y) ≡ next_two (weigh m2 y)
weigh-next_ran y h = elim (dec_lt y (2 ^ 63)) [
  | yes low ↦ weigh_low y low
  | no high ↦
      let z : ℕ = y - 2 ^ 63 in
      let parts : bit_xor (2 ^ 63) z ≡ y =
        ground (arith, bit_xor_halves 63 1 0 0 z, bit_xor-zero 1, zero-bit_xor z) in
      rw parts at (weigh_split z (omega arith))
]

weigh-serial : (k : ℕ) → weigh m2 (serial k) ≡ serial (k + k)
unfolding serial
weigh-serial zero = unfold weigh fill_m2 in refl
weigh-serial (suc k) =
    weigh-next_ran (serial k) (serial-lt k) ∙ ap next_two (weigh-serial k) ∙ ap serial places
  where
    places : suc (suc (k + k)) ≡ suc k + suc k
    places = omega arith

-- The inner loop squares: it goes from place k of the stream to place 2 k.
pub combine-serial : (k : ℕ) → combine m2 0 (serial k) 0 ≡ serial (k + k)
combine-serial k =
    combine-eq-weigh m2 0 (serial k) 0 ∙ zero-bit_xor _ ∙ ap (weigh m2) whole ∙ weigh-serial k
  where
    whole : serial k / 2 ^ 0 ≡ serial k
    whole = omega arith
