-- ===== src/RandomAccess/Stream/Linear.antt =====
-- One step of the stream of random_access.c is linear over exclusive or, and stays below 2 ^ 64.
use cray_tests.Prelude.{
  ℕ, zero, suc, ◌*◌, ◌/◌, ◌%◌, ◌^◌, ◌<◌, bit_xor, ◌≡◌, sym, ap, ap₂, ◌∙◌, arith, leb, if◌then◌else◌,
}
use cray_tests.Bits.{
  bit_xor_comm, bit_xor_assoc, bit_xor-lt, bit_xor-double, bit_xor_parts, xor_low,
}
use cray_tests.RandomAccess.Stream.{next_ran, poly}

pub next_ran-lt : (a : ℕ) → next_ran a < 2 ^ 64
unfolding next_ran
next_ran-lt a =
    bit_xor-lt 64 (a * 2 % 2 ^ 64) (if leb (2 ^ 63) a then poly else 0) (omega arith) (ground arith)

-- The n-th value of the serial stream, which begins at 1.
unfoldable pub serial : ℕ → ℕ
serial zero = 1
serial (suc n) = next_ran (serial n)

pub serial-lt : (n : ℕ) → serial n < 2 ^ 64
unfolding serial
serial-lt zero = omega arith
serial-lt (suc n) = next_ran-lt (serial n)

-- What the step adds when bit 63 is set.
abbrev feedback : ℕ → ℕ
feedback a = if leb (2 ^ 63) a then poly else 0

pub xor_swap :
    (a b c d : ℕ) → bit_xor (bit_xor a b) (bit_xor c d) ≡ bit_xor (bit_xor a c) (bit_xor b d)
xor_swap a b c d =
    bit_xor_assoc a b (bit_xor c d)
    ∙ ap (bit_xor a)
        (sym (bit_xor_assoc b c d) ∙ ap (λ t. bit_xor t d) (bit_xor_comm b c) ∙ bit_xor_assoc c b d)
    ∙ sym (bit_xor_assoc a c (bit_xor b d))

feedback-xor :
    (a b : ℕ) → a < 2 ^ 64 → b < 2 ^ 64 → feedback (bit_xor a b) ≡ bit_xor (feedback a) (feedback b)
feedback-xor a b h k = ground (
  arith,
  (bit_xor_parts 63 a b).0,
  xor_low (a / 2 ^ 63) (b / 2 ^ 63),
  bit_xor-lt 1 (a / 2 ^ 63) (b / 2 ^ 63),
)

pub next_ran-xor :
    (a b : ℕ) → a < 2 ^ 64 → b < 2 ^ 64 → next_ran (bit_xor a b) ≡ bit_xor (next_ran a) (next_ran b)
unfolding next_ran
next_ran-xor a b h k = ap₂ bit_xor shifted (feedback-xor a b h k) ∙ xor_swap _ _ _ _
  where
    shifted : bit_xor a b * 2 % 2 ^ 64 ≡ bit_xor (a * 2 % 2 ^ 64) (b * 2 % 2 ^ 64)
    shifted = ap (λ t. t % 2 ^ 64) (sym (bit_xor-double a b)) ∙ (bit_xor_parts 64 (a * 2) (b * 2)).1
