-- ===== src/Options.antt =====
-- The options of the programs: what `getopt` hands over, `atoi`, and include/ct_utils.h:
-- `ct_parse_std_opts`. A text is the list of the codes of its characters, without the zero.
pub mod OneSided
pub mod Pingpong
pub mod Mbw
pub mod RandomAccess
mod Tests
use mathlib.Core.Path.{subst}
use mathlib.Core.Option.{some-injective}
use cray_tests.Prelude.{
  ℕ, zero, suc, ◌+◌, ◌-◌, ◌*◌, ◌/◌, ◌%◌, ◌^◌, ◌<◌, ◌≡◌, refl, sym, ap, ◌∙◌, inl, inr, Option-cases,
  arith, Bool, ◌&&◌, ◌||◌, Option, none, some, List, [], ◌∷◌, ◌==◌, leb, ltb, if◌then◌else◌,
}
use cray_tests.Fabric.Libfabric.{ℤ, pos, negsuc}

-- One result of `getopt`: the character and `optarg`, which is empty for an option without one.
pub record Opt : Type 0 where
  pub op : ℕ
  pub optarg : List ℕ

-- `isspace`
abbrev pub is_space : ℕ → Bool
is_space c = c == 32 || (leb 9 c && leb c 13)

abbrev pub is_digit : ℕ → Bool
is_digit c = leb b'0' c && leb c b'9'

-- The number that a text starts with; 0 without a digit.
unfoldable pub digits : ℕ → List ℕ → ℕ
digits acc [] = acc
digits acc (c ∷ text) =
    let more = digits (acc * 10 + (c - b'0')) text in if is_digit c then more else acc

-- Minus `n`.
abbrev pub negated : ℕ → ℤ
negated zero = pos 0
negated (suc n) = negsuc n

-- `strtol` in base 10, which stops at the bounds of a `long`.
abbrev pub min_number : ℕ → ℕ → ℕ
min_number bound n = if leb n bound then n else bound

unfoldable pub signed : List ℕ → ℤ
unfolding digits
signed [] = pos 0
signed (c ∷ text) =
    if c == b'-'
    then negated (min_number (2 ^ 63) (digits 0 text))
    else pos (min_number (2 ^ 63 - 1) (digits 0 (if c == b'+' then text else c ∷ text)))

unfoldable pub strtol : List ℕ → ℤ
unfolding signed
strtol [] = pos 0
strtol (c ∷ text) = let rest = strtol text in if is_space c then rest else signed (c ∷ text)

-- The low 32 bits, read as an `int`.
abbrev pub int_of_word : ℕ → ℤ
int_of_word w = if ltb w (2 ^ 31) then pos w else negsuc (2 ^ 32 - 1 - w)

abbrev pub to_int : ℤ → ℤ
to_int (pos n) = int_of_word (n % 2 ^ 32)
to_int (negsuc n) = int_of_word (2 ^ 32 - 1 - n % 2 ^ 32)

unfoldable pub atoi : List ℕ → ℤ
unfolding strtol
atoi text = to_int (strtol text)

-- A number above 0, or `none` where the program prints its usage and ends.
abbrev pub positive : ℤ → Option ℕ
positive (pos zero) = none
positive (pos (suc n)) = some (suc n)
positive (negsuc n) = none

-- A part of a number, at least 1.
abbrev pub part : ℕ → ℕ → ℕ
part divisor n = if n / divisor == 0 then 1 else n / divisor

-- `hints->fabric_attr->prov_name`; without hints nothing is set.
unfoldable pub ct_parse_std_opts : Opt → Option (List ℕ) → Option (List ℕ)
ct_parse_std_opts o prov_name = if o.op == b'p' then some (o.optarg) else prov_name

pub int_of_word-lt : (w n : ℕ) → int_of_word w ≡ pos n → n < 2 ^ 31
int_of_word-lt w n e = ground arith

pub atoi-lt : (text : List ℕ) (n : ℕ) → atoi text ≡ pos n → n < 2 ^ 31
unfolding atoi
atoi-lt text n e = to_int-lt (strtol text) n e
  where
    to_int-lt : (i : ℤ) (n : ℕ) → to_int i ≡ pos n → n < 2 ^ 31
    to_int-lt (pos m) n e = int_of_word-lt (m % 2 ^ 32) n e
    to_int-lt (negsuc m) n e = int_of_word-lt (2 ^ 32 - 1 - m % 2 ^ 32) n e

-- What is accepted as positive is positive and fits an `int`.
abbrev pub InRange : Option ℕ → Type 0
InRange none = Unit {0}
InRange (some n) = (0 < n) × (n < 2 ^ 31)

pub positive-InRange : (text : List ℕ) → InRange (positive (atoi text))
positive-InRange text = go (atoi text) (atoi-lt text)
  where
    go : (i : ℤ) → ((m : ℕ) → i ≡ pos m → m < 2 ^ 31) → InRange (positive i)
    go (pos zero) h = tt
    go (pos (suc m)) h = let small = h (suc m) refl in ground arith
    go (negsuc m) h = tt

pub part-bounds :
    (divisor n : ℕ) → 0 < n → n < 2 ^ 31 → (0 < part divisor n) × (part divisor n < 2 ^ 31)
part-bounds divisor n h lt = ground arith

-- The settings with a number that was accepted, if it was.
abbrev pub with_number {ℓ} : {S : Type ℓ} → Option ℕ → (ℕ → S) → Option S
with_number none f = none
with_number (some n) f = some (f n)

abbrev pub and_then {ℓ} : {S : Type ℓ} → Option S → (S → Option S) → Option S
and_then none f = none
and_then (some s) f = f s

-- `getopt` gives one option after the other, until `main` returns.
module _ {ℓ} {S : Type ℓ} (parse_opt : S → Opt → Option S) where
  unfoldable pub parse_all : S → List Opt → Option S
  parse_all s [] = some s
  parse_all s (o ∷ opts) = and_then (parse_opt s o) (λ next. parse_all next opts)

  module _ {κ} (P : S → Type κ) where
    pub parse_all-keeps :
        ((s : S) (o : Opt) (s' : S) → P s → parse_opt s o ≡ some s' → P s')
        → (s : S) (opts : List Opt) (s' : S) → P s
        → parse_all s opts ≡ some s'
        → P s'
    unfolding parse_all
    parse_all-keeps keep s [] s' p e = subst P (some-injective s s' e) p
    parse_all-keeps keep s (o ∷ opts) s' p e = elim (Option-cases (parse_opt s o)) [
      | inl n ↦ absurd (cc (ap (λ m. and_then m (λ next. parse_all next opts)) n))
      | inr (t, q) ↦
          parse_all-keeps keep t opts s' (keep s o t p q)
            (sym (ap (λ m. and_then m (λ next. parse_all next opts)) q) ∙ e)
    ]

pub with_number-keeps {ℓ κ} :
    {S : Type ℓ} (P : S → Type κ) (m : Option ℕ) (f : ℕ → S) (s' : S)
    → InRange m
    → ((n : ℕ) → 0 < n → n < 2 ^ 31 → P (f n))
    → with_number m f ≡ some s'
    → P s'
with_number-keeps P none f s' r h e = absurd (cc)
with_number-keeps P (some n) f s' r h e = subst P (some-injective (f n) s' e) (h n r.0 r.1)
