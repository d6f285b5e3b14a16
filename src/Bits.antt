-- ===== src/Bits.antt =====
-- Exclusive or of machine words: the group laws, and how it acts on the two halves of a word.
mod Digits
pub use Digits.{zero-bit_xor}
use Digits.{bit_xor_digit, bit_and_digit}
use Prim.Native.Nat.{bit_and}
use native.Mathlib.Nat.{pow-suc, one-le-pow, mod-lt, mod-eq_of_lt, div-eq_of_lt, div-add-mod'}
use native.Mathlib.Nat.{mul-add-div_right, mul-add-mod_self_right}
use cray_tests.Prelude.{
  ℕ, zero, suc, ◌+◌, ◌-◌, ◌*◌, ◌/◌, ◌%◌, ◌^◌, ◌≤◌, ◌<◌, bit_xor, ◌≡◌, ap, ap₂, sym, ◌∙◌, arith,
}

pub xor_half : (a b : ℕ) → bit_xor a b / 2 ≡ bit_xor (a / 2) (b / 2)
xor_half a b = omega (arith, bit_xor_digit a b)

pub xor_low : (a b : ℕ) → bit_xor a b % 2 ≡ (a + b) % 2
xor_low a b = omega (arith, bit_xor_digit a b)

-- Two numbers with equal halves and equal last digits are equal.
eq_of_digits : (a b : ℕ) → a / 2 ≡ b / 2 → a % 2 ≡ b % 2 → a ≡ b
eq_of_digits a b h l = omega arith

comm_below : (n a b : ℕ) → a + b ≤ n → bit_xor a b ≡ bit_xor b a
comm_below zero a b h = let e : a ≡ b = omega arith in cc
comm_below (suc n) a b h =
    omega (arith, bit_xor_digit a b, bit_xor_digit b a, comm_below n (a / 2) (b / 2) (omega arith))

pub bit_xor_comm : (a b : ℕ) → bit_xor a b ≡ bit_xor b a
bit_xor_comm a b = comm_below (a + b) a b (omega arith)

self_below : (n a : ℕ) → a ≤ n → bit_xor a a ≡ 0
self_below zero a h = let e : a ≡ 0 = omega arith in rw e
self_below (suc n) a h = omega (arith, bit_xor_digit a a, self_below n (a / 2) (omega arith))

pub bit_xor_self : (a : ℕ) → bit_xor a a ≡ 0
bit_xor_self a = self_below a a (omega arith)

pub bit_xor-zero : (a : ℕ) → bit_xor a 0 ≡ a
bit_xor-zero a = bit_xor_comm a 0 ∙ zero-bit_xor a

assoc_below : (n a b c : ℕ) → a + b + c ≤ n → bit_xor (bit_xor a b) c ≡ bit_xor a (bit_xor b c)
assoc_below zero a b c h =
    let ea : a ≡ 0 = omega arith in
    let ec : c ≡ 0 = omega arith in rw (ea, ec) (rw (bit_xor-zero (bit_xor 0 b), bit_xor-zero b))
assoc_below (suc n) a b c h =
    eq_of_digits _ _ (simp xor_half (assoc_below n (a / 2) (b / 2) (c / 2) (omega arith)))
      (omega (arith, xor_low (bit_xor a b) c, xor_low a (bit_xor b c), xor_low a b, xor_low b c))

pub bit_xor_assoc : (a b c : ℕ) → bit_xor (bit_xor a b) c ≡ bit_xor a (bit_xor b c)
bit_xor_assoc a b c = assoc_below (a + b + c) a b c (omega arith)

pub bit_xor-lt : (k a b : ℕ) → a < 2 ^ k → b < 2 ^ k → bit_xor a b < 2 ^ k
bit_xor-lt zero a b h l =
    let ea : a ≡ 0 = omega arith in let eb : b ≡ 0 = omega arith in rw (ea, eb) (omega arith)
bit_xor-lt (suc k) a b h l = omega (
  arith,
  pow-suc 2 k,
  bit_xor_digit a b,
  bit_xor-lt k (a / 2) (b / 2) (omega (arith, pow-suc 2 k)) (omega (arith, pow-suc 2 k)),
)

mul-pow_suc : (q k : ℕ) → q * 2 ^ suc k ≡ q * 2 ^ k * 2
mul-pow_suc q k = omega (arith, ap (λ (t : ℕ). q * t) (pow-suc 2 k))

-- The high and the low parts of two words are combined separately.
pub bit_xor_halves :
    (k q s r u : ℕ)
    → r < 2 ^ k
    → u < 2 ^ k
    → bit_xor (q * 2 ^ k + r) (s * 2 ^ k + u) ≡ bit_xor q s * 2 ^ k + bit_xor r u
bit_xor_halves zero q s r u h l = ground (arith, bit_xor-zero 0)
bit_xor_halves (suc k) q s r u h l = ground (
  arith,
  mul-pow_suc q k,
  mul-pow_suc s k,
  mul-pow_suc (bit_xor q s) k,
  pow-suc 2 k,
  bit_xor_digit (q * 2 ^ suc k + r) (s * 2 ^ suc k + u),
  bit_xor_digit r u,
  bit_xor_halves k q s (r / 2) (u / 2),
)

-- Doubling both words doubles the result.
pub bit_xor-double : (a b : ℕ) → bit_xor (a * 2) (b * 2) ≡ bit_xor a b * 2
bit_xor-double a b = ground (arith, bit_xor_halves 1 a b 0 0, bit_xor-zero 0)

div_mod_of_parts : (m q r x : ℕ) → r < m → x ≡ q * m + r → (x / m ≡ q) × (x % m ≡ r)
div_mod_of_parts m q r x h e = (
  rw (e, mul-add-div_right {m = m} (omega arith) q r, div-eq_of_lt h) (omega arith),
  rw (e, mul-add-mod_self_right q m r, mod-eq_of_lt h),
)

-- The high parts and the low `k` bits of two words are combined separately.
pub bit_xor_parts :
    (k a b : ℕ)
    → (bit_xor a b / 2 ^ k ≡ bit_xor (a / 2 ^ k) (b / 2 ^ k))
      × (bit_xor a b % 2 ^ k ≡ bit_xor (a % 2 ^ k) (b % 2 ^ k))
bit_xor_parts k a b = div_mod_of_parts (2 ^ k) _ _ _ (bit_xor-lt k _ _ (low a) (low b)) whole
  where
    low : (x : ℕ) → x % 2 ^ k < 2 ^ k
    low x = mod-lt x (one-le-pow k 2 (omega arith))

    whole : bit_xor a b ≡ bit_xor (a / 2 ^ k) (b / 2 ^ k) * 2 ^ k + bit_xor (a % 2 ^ k) (b % 2 ^ k)
    whole =
        ap₂ bit_xor (sym (div-add-mod' a (2 ^ k))) (sym (div-add-mod' b (2 ^ k)))
        ∙ bit_xor_halves k (a / 2 ^ k) (b / 2 ^ k) (a % 2 ^ k) (b % 2 ^ k) (low a) (low b)

no_bits : (n a : ℕ) → a ≤ n → bit_and a 0 ≡ 0
no_bits zero a h = let e : a ≡ 0 = omega arith in rw e
no_bits (suc n) a h = omega (arith, bit_and_digit a 0, no_bits n (a / 2) (omega arith))

-- One more digit of the word under one more one of the mask.
mask_step :
    (k a : ℕ)
    → bit_and (a / 2) (2 ^ k - 1) ≡ a / 2 % 2 ^ k
    → bit_and a (2 ^ suc k - 1) ≡ a % 2 ^ suc k
mask_step k a ih = sym (div_mod_of_parts (2 ^ suc k) (a / 2 / 2 ^ k) _ a small whole).1
  where
    positive : 1 ≤ 2 ^ k
    positive = one-le-pow k 2 (omega arith)

    half : (2 ^ suc k - 1) / 2 ≡ 2 ^ k - 1
    half = omega (arith, pow-suc 2 k, positive)

    rest : bit_and a (2 ^ suc k - 1) ≡ a / 2 % 2 ^ k * 2 + a % 2
    rest = omega (
      arith,
      bit_and_digit a (2 ^ suc k - 1),
      ap (bit_and (a / 2)) half,
      ih,
      pow-suc 2 k,
      positive,
    )

    small : bit_and a (2 ^ suc k - 1) < 2 ^ suc k
    small = omega (arith, rest, pow-suc 2 k, mod-lt (a / 2) {m = 2 ^ k} positive)

    whole : a ≡ a / 2 / 2 ^ k * 2 ^ suc k + bit_and a (2 ^ suc k - 1)
    whole = omega (arith, rest, mul-pow_suc (a / 2 / 2 ^ k) k, div-add-mod' (a / 2) (2 ^ k))

-- A mask of `k` ones keeps the low `k` bits.
pub bit_and_mask : (k a : ℕ) → bit_and a (2 ^ k - 1) ≡ a % 2 ^ k
bit_and_mask zero a = omega (arith, no_bits a a (omega arith))
bit_and_mask (suc k) a = mask_step k a (bit_and_mask k (a / 2))
