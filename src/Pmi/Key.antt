-- ===== src/Pmi/Key.antt =====
-- common/ct_utils.c: the keys `"%s_rank%d"` of the collectives, over the names `"allg%d"` and
-- `"bcst%d"` of the calls. Texts are lists of character codes, without a terminating zero.
use native.Mathlib.Nat.{pow-suc}
use mathlib.Core.List.{append_assoc}
use cray_tests.Prelude.{
  ℕ, zero, suc, ◌+◌, ◌-◌, ◌*◌, ◌/◌, ◌%◌, ◌^◌, ◌<◌, ◌≤◌, ◌≡◌, refl, sym, ap, ◌∙◌, arith, List, [],
  ◌∷◌, ◌++◌, length, take, length-append, ltb, if◌then◌else◌, Bool-cases, inl, inr,
}

-- `%d` of a number that is not negative. A number has fewer digits than its value plus one.
decimal_fuel : ℕ → ℕ → List ℕ
decimal_fuel zero n = []
decimal_fuel (suc fuel) n =
    let front = decimal_fuel fuel (n / 10) in
    if ltb n 10 then (n + 48) ∷ [] else front ++ (n % 10 + 48) ∷ []

pub decimal : ℕ → List ℕ
unfolding decimal_fuel
decimal n = decimal_fuel (suc n) n

-- `snprintf` into 64 bytes keeps at most 63 characters.
abbrev pub snprintf_64 : List ℕ → List ℕ
snprintf_64 = take 63

-- "allg" and "bcst"
abbrev pub allg : List ℕ
allg = 97 ∷ 108 ∷ 108 ∷ 103 ∷ []

abbrev pub bcst : List ℕ
bcst = 98 ∷ 99 ∷ 115 ∷ 116 ∷ []

-- "_rank", after the underscore
abbrev rank_text : List ℕ
rank_text = 114 ∷ 97 ∷ 110 ∷ 107 ∷ []

-- `snprintf(idstr, 64, "allg%d", cnt)`, and with "bcst".
pub idstr : List ℕ → ℕ → List ℕ
idstr name cnt = snprintf_64 (name ++ decimal cnt)

-- `snprintf(key, 64, "%s_rank%d", kvs, rank)`
unfoldable pub key : List ℕ → ℕ → List ℕ
key kvs rank = snprintf_64 (kvs ++ 95 ∷ (rank_text ++ decimal rank))

-- The number that a text of digits stands for.
value : ℕ → List ℕ → ℕ
value acc [] = acc
value acc (c ∷ s) = value (acc * 10 + (c - 48)) s

value-append :
    (acc : ℕ) (s : List ℕ) (c : ℕ) → value acc (s ++ c ∷ []) ≡ value acc s * 10 + (c - 48)
unfolding value
value-append acc [] c = refl
value-append acc (d ∷ s) c = value-append (acc * 10 + (d - 48)) s c

value-decimal_fuel : (fuel n : ℕ) → n < fuel → value 0 (decimal_fuel fuel n) ≡ n
unfolding decimal_fuel
value-decimal_fuel zero n h = absurd (omega arith)
value-decimal_fuel (suc fuel) n h = elim (Bool-cases (ltb n 10)) [
  | inl e ↦ rw e (unfold value in omega arith)
  | inr e ↦ rw e (
      value-append 0 (decimal_fuel fuel (n / 10)) (n % 10 + 48)
      ∙ ground (arith, value-decimal_fuel fuel (n / 10)))
]

decimal-injective : (a b : ℕ) → decimal a ≡ decimal b → a ≡ b
unfolding decimal
decimal-injective a b e =
    sym (value-decimal_fuel (suc a) a (omega arith))
    ∙ ap (value 0) e
    ∙ value-decimal_fuel (suc b) b (omega arith)

-- All characters are digits.
abbrev AreDigits : List ℕ → Type 0
AreDigits [] = Unit {0}
AreDigits (c ∷ s) = (48 ≤ c) × (c < 58) × AreDigits s

AreDigits-append : (s : List ℕ) (c : ℕ) → AreDigits s → 48 ≤ c → c < 58 → AreDigits (s ++ c ∷ [])
AreDigits-append [] c h l u = (l, u, tt)
AreDigits-append (d ∷ s) c h l u = (h.0, h.1, AreDigits-append s c h.2 l u)

decimal_fuel-AreDigits : (fuel n : ℕ) → AreDigits (decimal_fuel fuel n)
unfolding decimal_fuel
decimal_fuel-AreDigits zero n = tt
decimal_fuel-AreDigits (suc fuel) n = elim (Bool-cases (ltb n 10)) [
  | inl e ↦ rw e (ground arith)
  | inr e ↦ rw e (
      AreDigits-append (decimal_fuel fuel (n / 10)) _ (decimal_fuel-AreDigits fuel (n / 10))
        (omega arith) (omega arith))
]

decimal-AreDigits : (n : ℕ) → AreDigits (decimal n)
unfolding decimal
decimal-AreDigits n = decimal_fuel-AreDigits (suc n) n

length-decimal_fuel : (fuel k n : ℕ) → 0 < k → n < 10 ^ k → length (decimal_fuel fuel n) ≤ k
unfolding decimal_fuel
length-decimal_fuel zero k n pos h = omega arith
length-decimal_fuel (suc fuel) zero n pos h = absurd (omega arith)
length-decimal_fuel (suc fuel) (suc zero) n pos h = elim (Bool-cases (ltb n 10)) [
  | inl e ↦ rw e (omega arith)
  | inr e ↦ absurd (ground arith)
]
length-decimal_fuel (suc fuel) (suc (suc k)) n pos h = elim (Bool-cases (ltb n 10)) [
  | inl e ↦ rw e (omega arith)
  | inr e ↦
      let front =
        length-decimal_fuel fuel (suc k) (n / 10) (omega arith)
          (omega (arith, pow-suc 10 (suc k))) in
      rw (e, length-append {0} (decimal_fuel fuel (n / 10)) ((n % 10 + 48) ∷ [])) (omega arith)
]

-- A text of digits ends where the first other character stands.
split_digits :
    (s t x y : List ℕ) (c d : ℕ)
    → AreDigits s
    → AreDigits t
    → 58 ≤ c
    → 58 ≤ d
    → s ++ c ∷ x ≡ t ++ d ∷ y
    → (s ≡ t) × (x ≡ y)
split_digits [] [] x y c d hs ht hc hd e = (refl, cc)
split_digits [] (b ∷ t) x y c d hs ht hc hd e = absurd (ground arith)
split_digits (a ∷ s) [] x y c d hs ht hc hd e = absurd (ground arith)
split_digits (a ∷ s) (b ∷ t) x y c d hs ht hc hd e =
    let (front, back) = split_digits s t x y c d hs.2 ht.2 hc hd (cc) in (cc, back)

split_names : (s t x y : List ℕ) → length s ≡ length t → s ++ x ≡ t ++ y → (s ≡ t) × (x ≡ y)
split_names [] [] x y l e = (refl, e)
split_names [] (b ∷ t) x y l e = absurd (omega arith)
split_names (a ∷ s) [] x y l e = absurd (omega arith)
split_names (a ∷ s) (b ∷ t) x y l e =
    let (front, back) = split_names s t x y (omega arith) (cc) in (cc, back)

take_all : (n : ℕ) (s : List ℕ) → length s ≤ n → take n s ≡ s
take_all zero [] h = refl
take_all (suc n) [] h = refl
take_all zero (c ∷ s) h = absurd (omega arith)
take_all (suc n) (c ∷ s) h = ap (λ t. c ∷ t) (take_all n s (omega arith))

decimal-short : (n : ℕ) → n < 2 ^ 31 → length (decimal n) ≤ 10
unfolding decimal
decimal-short n h = length-decimal_fuel (suc n) 10 n (omega arith) (omega arith)

idstr-whole :
    (name : List ℕ) (cnt : ℕ)
    → length name ≡ 4
    → cnt < 2 ^ 31
    → idstr name cnt ≡ name ++ decimal cnt
unfolding idstr
idstr-whole name cnt l h =
    take_all 63 _ (omega (arith, length-append {0} name (decimal cnt), decimal-short cnt h))

whole_key-short :
    (name : List ℕ) (cnt rank : ℕ)
    → length name ≡ 4
    → cnt < 2 ^ 31
    → rank < 2 ^ 31
    → length ((name ++ decimal cnt) ++ 95 ∷ (rank_text ++ decimal rank)) ≤ 63
whole_key-short name cnt rank l h k = omega (
  arith,
  length-append {0} (name ++ decimal cnt) (95 ∷ (rank_text ++ decimal rank)),
  length-append {0} name (decimal cnt),
  decimal-short cnt h,
  decimal-short rank k,
)

-- Neither `snprintf` cuts anything off.
key-whole :
    (name : List ℕ) (cnt rank : ℕ)
    → length name ≡ 4
    → cnt < 2 ^ 31
    → rank < 2 ^ 31
    → key (idstr name cnt) rank ≡ name ++ (decimal cnt ++ 95 ∷ (rank_text ++ decimal rank))
unfolding key
key-whole name cnt rank l h k =
    ap (λ s. snprintf_64 (s ++ 95 ∷ (rank_text ++ decimal rank))) (idstr-whole name cnt l h)
    ∙ take_all 63 _ (whole_key-short name cnt rank l h k)
    ∙ append_assoc name (decimal cnt) _

pub length-key :
    (name : List ℕ) (cnt rank : ℕ)
    → length name ≡ 4
    → cnt < 2 ^ 31
    → rank < 2 ^ 31
    → length (key (idstr name cnt) rank) < 64
length-key name cnt rank l h k =
    rw
      (
        key-whole name cnt rank l h k,
        sym (append_assoc name (decimal cnt) (95 ∷ (rank_text ++ decimal rank))),
      )
      (omega (arith, whole_key-short name cnt rank l h k))

-- The keys of two values are the same only when the kind of call, the number of the call and the
-- rank are the same, while both numbers fit an `int`.
pub key-injective :
    (name name' : List ℕ) (cnt cnt' rank rank' : ℕ)
    → length name ≡ 4
    → length name' ≡ 4
    → cnt < 2 ^ 31
    → cnt' < 2 ^ 31
    → rank < 2 ^ 31
    → rank' < 2 ^ 31
    → key (idstr name cnt) rank ≡ key (idstr name' cnt') rank'
    → (name ≡ name') × (cnt ≡ cnt') × (rank ≡ rank')
key-injective name name' cnt cnt' rank rank' l l' h h' k k' e =
    let whole = sym (key-whole name cnt rank l h k) ∙ e ∙ key-whole name' cnt' rank' l' h' k' in
    let (names, rest) = split_names name name' _ _ (l ∙ sym l') whole in
    let (cnts, tail) =
      split_digits (decimal cnt) (decimal cnt') _ _ 95 95 (decimal-AreDigits cnt)
        (decimal-AreDigits cnt') (omega arith) (omega arith) rest in
    let (_, ranks) = split_names rank_text rank_text _ _ refl tail in
    (names, decimal-injective cnt cnt' cnts, decimal-injective rank rank' ranks)
