-- ===== src/Pmi/Encoding.antt =====
-- common/ct_utils.c: `encode` and `decode`, which carry bytes through the key-value store as
-- letters. A byte is a number below 256, a C string a list that holds its terminating zero.
use mathlib.Core.Option
use mathlib.Core.Path.{subst}
use cray_tests.Prelude.{
  ℕ, zero, suc, ◌+◌, ◌-◌, ◌*◌, ◌/◌, ◌%◌, ◌<◌, ◌≡◌, refl, arith, bit_or, Bool, true, false, dec_lt,
  Option, none, some, List, [], ◌∷◌, ◌++◌, length, ◌==◌, ==_iff, if◌then◌else◌,
}

-- `'a'`
abbrev letter_a : ℕ
letter_a = 97

-- `(buf[i] & 0xF) + 'a'` and `((buf[i] >> 4) & 0xF) + 'a'`
abbrev low_letter : ℕ → ℕ
low_letter b = b % 16 + letter_a

abbrev high_letter : ℕ → ℕ
high_letter b = b / 16 % 16 + letter_a

unfoldable pub encode : List ℕ → List ℕ
encode [] = 0 ∷ []
encode (b ∷ buf) = low_letter b ∷ high_letter b ∷ encode buf

-- The place of the first zero; `none` if the string does not end.
unfoldable pub strlen : List ℕ → Option ℕ
strlen [] = none
strlen (c ∷ s) = if c == 0 then some 0 else Option.map suc (strlen s)

-- `((ebuf[2 * i + 1] - 'a') << 4) | (ebuf[2 * i] - 'a')`, cut to a `char`; the letters are
-- subtracted modulo 256.
unfoldable pub decode_byte : ℕ → ℕ → ℕ
decode_byte low high =
    bit_or ((high + 256 - letter_a) % 256 * 16 % 256) ((low + 256 - letter_a) % 256)

-- The loop of `decode`, with `n` bytes left.
unfoldable pub decode_loop : ℕ → List ℕ → List ℕ
unfolding decode_byte
decode_loop zero s = []
decode_loop (suc n) (low ∷ high ∷ s) = decode_byte low high ∷ decode_loop n s
decode_loop (suc n) s = []

-- The bytes, and what is stored in `*outlen`.
unfoldable pub decode : List ℕ → Option (List ℕ × ℕ)
unfolding strlen decode_loop
decode ebuf = Option.map (λ len. (decode_loop (len / 2) ebuf, len)) (strlen ebuf)

abbrev pub IsBytes : List ℕ → Type 0
IsBytes [] = Unit {0}
IsBytes (b ∷ buf) = (b < 256) × IsBytes buf

-- Whether the letters of every byte below `bound` decode to it.
decodes_below : ℕ → Bool
decodes_below zero = true
decodes_below (suc b) =
    if decode_byte (low_letter b) (high_letter b) == b then decodes_below b else false

decodes_below_256 : decodes_below 256 ≡ true
unfolding decodes_below decode_byte
decodes_below_256 = refl

both_true : (p q : Bool) → (if p then q else false) ≡ true → (p ≡ true) × (q ≡ true)
both_true true q h = (refl, h)
both_true false q h = absurd (cc)

decodes_below_lem :
    (bound b : ℕ)
    → decodes_below bound ≡ true
    → b < bound
    → (decode_byte (low_letter b) (high_letter b) == b) ≡ true
unfolding decodes_below
decodes_below_lem zero b table below = absurd (omega arith)
decodes_below_lem (suc top) b table below =
    let (here, rest) =
      both_true (decode_byte (low_letter top) (high_letter top) == top) (decodes_below top) table in
    elim (dec_lt b top) [
      | yes lower ↦ decodes_below_lem top b rest lower
      | no last ↦
          subst (λ x. (decode_byte (low_letter x) (high_letter x) == x) ≡ true) (omega arith) here
    ]

decode_byte-letters : (b : ℕ) → b < 256 → decode_byte (low_letter b) (high_letter b) ≡ b
decode_byte-letters b below = (==_iff _ b).0 (decodes_below_lem 256 b decodes_below_256 below)

pub strlen-encode : (buf rest : List ℕ) → strlen (encode buf ++ rest) ≡ some (2 * length buf)
unfolding strlen encode
strlen-encode [] rest = refl
strlen-encode (b ∷ buf) rest = ground (arith, strlen-encode buf rest)

decode_loop-encode :
    (buf rest : List ℕ) → IsBytes buf → decode_loop (length buf) (encode buf ++ rest) ≡ buf
unfolding decode_loop encode
decode_loop-encode [] rest h = refl
decode_loop-encode (b ∷ buf) rest h =
    ground (arith, decode_byte-letters b h.0, decode_loop-encode buf rest h.1)

pub decode-encode :
    (buf rest : List ℕ) → IsBytes buf → decode (encode buf ++ rest) ≡ some (buf, 2 * length buf)
unfolding decode
decode-encode buf rest h =
    let half : 2 * length buf / 2 ≡ length buf = omega arith in
    rw (strlen-encode buf rest, half, decode_loop-encode buf rest h)
