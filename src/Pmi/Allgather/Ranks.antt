-- ===== src/Pmi/Allgather/Ranks.antt =====
-- common/ct_utils.c: the ranks in order, and what `allgather` reads of them out of memory.
use mathlib.Core.List.{Memᴰ}
use cray_tests.Prelude.{
  dec_lt, ℕ, zero, suc, ◌+◌, ◌^◌, ◌<◌, ◌≤◌, ◌≡◌, refl, ap, ap₂, arith, List, [], ◌∷◌, ◌++◌,
}
use cray_tests.Pmi.Collective.{gathered}
use cray_tests.Pmi.Published.{Buffers, Below}
use cray_tests.Pmi.Reorder.{joined}
use cray_tests.Pmi.Allgather.{int_bytes, ints}

-- The ranks from `i` on.
unfoldable pub ranks_from : ℕ → ℕ → List ℕ
ranks_from i zero = []
ranks_from i (suc n) = i ∷ ranks_from (suc i) n

pub gathered-joined : (src : ℕ → List ℕ) (i n : ℕ) → gathered src i n ≡ joined src (ranks_from i n)
unfolding gathered joined ranks_from
gathered-joined src i zero = refl
gathered-joined src i (suc n) = ap (λ l. src i ++ l) (gathered-joined src (suc i) n)

-- Reading the memory of an array of `int`s gives them back.
pub ints-gathered : (i n : ℕ) → i + n ≤ 2 ^ 31 → ints (gathered int_bytes i n) ≡ ranks_from i n
unfolding gathered ints ranks_from
ints-gathered i zero le = refl
ints-gathered i (suc n) le =
    ap₂ (λ v l. v ∷ l) (omega arith) (ints-gathered (suc i) n (omega arith))

pub int_bytes-Buffers : (n : ℕ) → Buffers int_bytes n 4
int_bytes-Buffers n r lt = (refl, (omega arith, (omega arith, (omega arith, (omega arith, tt)))))

pub ranks_from-Below : (n i k : ℕ) → i + k ≤ n → Below n (ranks_from i k)
unfolding ranks_from
ranks_from-Below n i zero le = tt
ranks_from-Below n i (suc k) le = (omega arith, ranks_from-Below n (suc i) k (omega arith))

pub mem-ranks_from : (i k r : ℕ) → i ≤ r → r < i + k → Memᴰ r (ranks_from i k)
unfolding ranks_from
mem-ranks_from i zero r le lt = absurd (omega arith)
mem-ranks_from i (suc k) r le lt = elim (dec_lt i r) [
  | yes later ↦ Memᴰ.tail (mem-ranks_from (suc i) k r (omega arith) (omega arith))
  | no same ↦ Memᴰ.head (omega arith)
]

pub Below-append : (n : ℕ) (xs ys : List ℕ) → Below n xs → Below n ys → Below n (xs ++ ys)
Below-append n [] ys b c = c
Below-append n (x ∷ xs) ys (lt, b) c = (lt, Below-append n xs ys b c)
