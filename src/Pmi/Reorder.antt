-- ===== src/Pmi/Reorder.antt =====
-- common/ct_utils.c: `allgather`, which puts the blocks that `PMI_Allgather` returned in any order
-- of the ranks at the places of their ranks.
use mathlib.Core.List.Memᴰ
use mathlib.Core.List.{Memᴰ}
use native.Mathlib.Nat.{mul-le-mul_left}
use cray_tests.Prelude.{
  dec_lt, ℕ, ◌+◌, ◌-◌, ◌*◌, ◌^◌, ◌<◌, ◌≤◌, ◌≡◌, ◌⊎◌, inl, inr, refl, sym, ap, arith, false, ◌&&◌,
  ltb, leb, if◌then◌else◌, Bool-cases, List, [], ◌∷◌, ◌++◌, length, take, drop, get_or, take-append,
  drop-append, Outcome, ok, fault,
}
use cray_tests.Pmi.Published.{Below}

-- `memcpy(&out_ptr[offset], block, ...)`; memory gives the byte at each place.
unfoldable pub memcpy_at : (ℕ → ℕ) → ℕ → List ℕ → ℕ → ℕ
memcpy_at out_ptr offset block a =
    if leb offset a && ltb a (offset + length block) then get_or block (a - offset) 0 else out_ptr a

-- The loop over the ranks that are left, with what is left of `tmp_buf`; the product of two `int`s
-- must not overflow.
unfoldable pub reorder : List ℕ → List ℕ → ℕ → (ℕ → ℕ) → Outcome (ℕ → ℕ)
unfolding memcpy_at
reorder [] tmp_buf len out_ptr = ok out_ptr
reorder (rank ∷ ivec) tmp_buf len out_ptr =
    let rest =
      reorder ivec (drop len tmp_buf) len (memcpy_at out_ptr (len * rank) (take len tmp_buf)) in
    if leb (2 ^ 31) (len * rank) then fault else rest

-- The buffers of the ranks of a list, one after the other.
unfoldable pub joined : (ℕ → List ℕ) → List ℕ → List ℕ
joined src [] = []
joined src (rank ∷ ivec) = src rank ++ joined src ivec

module _ (src : ℕ → List ℕ) (nranks len : ℕ)
    (lengths : (r : ℕ) → r < nranks → length (src r) ≡ len) where
  -- `out_ptr` holds the buffer of rank `r` at its place.
  abbrev pub Holds : (ℕ → ℕ) → ℕ → Type 0
  Holds out_ptr r = (k : ℕ) → k < len → out_ptr (len * r + k) ≡ get_or (src r) k 0

  same_rank : (r r' k k' : ℕ) → k < len → k' < len → len * r + k ≡ len * r' + k' → r ≡ r'
  same_rank r r' k k' h h' e = elim (dec_lt r r') [
    | yes l ↦ absurd (omega (arith, mul-le-mul_left {m = r + 1} {n = r'} len (omega arith)))
    | no l ↦ elim (dec_lt r' r) [
      | yes g ↦ absurd (omega (arith, mul-le-mul_left {m = r' + 1} {n = r} len (omega arith)))
      | no g ↦ omega arith
    ]
  ]

  memcpy_at-own :
      (out_ptr : ℕ → ℕ) (r : ℕ) → r < nranks → Holds (memcpy_at out_ptr (len * r) (src r)) r
  unfolding memcpy_at
  memcpy_at-own out_ptr r lt k h = ground (arith, lengths r lt)

  memcpy_at-other :
      (out_ptr : ℕ → ℕ) (r r' : ℕ)
      → r < nranks
      → Holds out_ptr r'
      → Holds (memcpy_at out_ptr (len * r) (src r)) r'
  unfolding memcpy_at
  memcpy_at-other out_ptr r r' lt held k h =
      elim (Bool-cases
        (leb (len * r) (len * r' + k) && ltb (len * r' + k) (len * r + length (src r)))) [
          | inl e ↦
              let here : (len * r ≤ len * r' + k) × (len * r' + k < len * r + len) =
                ground (arith, lengths r lt) in
              let same = same_rank r' r k (len * r' + k - len * r) h (omega arith) (omega arith) in
              rw (e, sym same) (ap (λ i. get_or (src r') i 0) (omega arith))
          | inr e ↦ rw e (held k h)
        ]

  -- The loop puts the buffer of every rank of the list at its place and keeps the others.
  reorder-Holds :
      (ivec : List ℕ) (out_ptr : ℕ → ℕ)
      → Below nranks ivec
      → nranks * len < 2 ^ 31
      → (out : ℕ → ℕ) × (reorder ivec (joined src ivec) len out_ptr ≡ ok out)
        × ((r : ℕ) → Memᴰ r ivec ⊎ Holds out_ptr r → Holds out r)
  unfolding reorder joined
  reorder-Holds [] out_ptr below h = (out_ptr, refl, λ r m. held r m)
    where
      held : (r : ℕ) → Memᴰ r [] ⊎ Holds out_ptr r → Holds out_ptr r
      held r (inl m) = absurd (Memᴰ.not-nil m)
      held r (inr e) = e
  reorder-Holds (rank ∷ ivec) out_ptr below h =
      let (out, run, rest) =
        reorder-Holds ivec (memcpy_at out_ptr (len * rank) (src rank)) below.1 h in
      let front : take len (src rank ++ joined src ivec) ≡ src rank =
        rw (sym (lengths rank below.0)) (take-append {0} (src rank) (joined src ivec)) in
      let back : drop len (src rank ++ joined src ivec) ≡ joined src ivec =
        rw (sym (lengths rank below.0)) (drop-append {0} (src rank) (joined src ivec)) in
      let small : leb (2 ^ 31) (len * rank) ≡ false =
        ground (arith, mul-le-mul_left {m = rank} {n = nranks} len (omega arith)) in
      (out, rw (front, back, small) run, λ r m. rest r (held r m))
    where
      held :
          (r : ℕ)
          → Memᴰ r (rank ∷ ivec) ⊎ Holds out_ptr r
          → Memᴰ r ivec ⊎ Holds (memcpy_at out_ptr (len * rank) (src rank)) r
      held r (inl m) = elim (Memᴰ.cases_cons m) [
        | inl e ↦ inr (rw e (memcpy_at-own out_ptr rank below.0))
        | inr m' ↦ inl m'
      ]
      held r (inr e) = inr (memcpy_at-other out_ptr rank r below.0 e)

-- Whatever the order in which the blocks of the ranks come, the buffer of each rank ends at its
-- place in rank order, when the whole buffer has less than 2^31 bytes.
pub reorder_lem :
    (src : ℕ → List ℕ) (nranks len : ℕ) (ivec : List ℕ) (out_ptr : ℕ → ℕ)
    → ((r : ℕ) → r < nranks → length (src r) ≡ len)
    → Below nranks ivec
    → ((r : ℕ) → r < nranks → Memᴰ r ivec)
    → nranks * len < 2 ^ 31
    → (out : ℕ → ℕ) × (reorder ivec (joined src ivec) len out_ptr ≡ ok out)
      × ((r k : ℕ) → r < nranks → k < len → out (len * r + k) ≡ get_or (src r) k 0)
reorder_lem src nranks len ivec out_ptr lengths below every h =
    let (out, run, holds) = reorder-Holds src nranks len lengths ivec out_ptr below h in
    (out, run, λ r k lt. holds r (inl (every r lt)) k)
