-- ===== src/RandomAccess/Registration/Words.antt =====
-- performance/multi-node/random_access.c: the exchange of a `uint64_t` of each rank over the
-- `allgather` of common/ct_utils.c.
use mathlib.Core.List.{Memᴰ}
use cray_tests.Prelude.{
  ℕ, zero, suc, ◌+◌, ◌*◌, ◌/◌, ◌%◌, ◌^◌, ◌<◌, ◌≤◌, ◌≡◌, refl, ap₂, arith, List, [], ◌∷◌, ◌++◌,
  length, get_or, Outcome, ok, ◌>>=◌,
}
use cray_tests.Pmi.Key.{allg}
use cray_tests.Pmi.Store.{Pmi}
use cray_tests.Pmi.Published.{Buffers, Below, AreOther}
use cray_tests.Pmi.Allgather.{Kept, Schedule, buffers_cnt, allgather}
use cray_tests.Pmi.Allgather.Order.{kept_ranks, IsKept, allgather-out}
use cray_tests.RandomAccess.Registration.{ctpm_allgather}

-- The memory of a `uint64_t`, and what is read of an array of them at an index.
abbrev pub word_bytes : ℕ → List ℕ
word_bytes v =
    v % 256
    ∷ v / 2 ^ 8 % 256
    ∷ v / 2 ^ 16 % 256
    ∷ v / 2 ^ 24 % 256
    ∷ v / 2 ^ 32 % 256
    ∷ v / 2 ^ 40 % 256
    ∷ v / 2 ^ 48 % 256
    ∷ v / 2 ^ 56 % 256
    ∷ []

abbrev pub word_at : (ℕ → ℕ) → ℕ → ℕ
word_at memory i =
    memory (8 * i + 0)
    + 2 ^ 8 * memory (8 * i + 1)
    + 2 ^ 16 * memory (8 * i + 2)
    + 2 ^ 24 * memory (8 * i + 3)
    + 2 ^ 32 * memory (8 * i + 4)
    + 2 ^ 40 * memory (8 * i + 5)
    + 2 ^ 48 * memory (8 * i + 6)
    + 2 ^ 56 * memory (8 * i + 7)

-- The entries of the array from `i` on.
unfoldable pub words_at : (ℕ → ℕ) → ℕ → ℕ → List ℕ
words_at memory i zero = []
words_at memory i (suc n) = word_at memory i ∷ words_at memory (suc i) n

word_bytes-Buffers : (values : ℕ → ℕ) (n : ℕ) → Buffers (λ r. word_bytes (values r)) n 8
word_bytes-Buffers values n r lt = (
  refl,
  (
    omega arith,
    (
      omega arith,
      (omega arith, (omega arith, (omega arith, (omega arith, (omega arith, (omega arith, tt)))))),
    ),
  ),
)

-- The bytes of a word make it up.
word_bytes-sum :
    (v : ℕ)
    → v < 2 ^ 64
    → v % 256
        + 2 ^ 8 * (v / 2 ^ 8 % 256)
        + 2 ^ 16 * (v / 2 ^ 16 % 256)
        + 2 ^ 24 * (v / 2 ^ 24 % 256)
        + 2 ^ 32 * (v / 2 ^ 32 % 256)
        + 2 ^ 40 * (v / 2 ^ 40 % 256)
        + 2 ^ 48 * (v / 2 ^ 48 % 256)
        + 2 ^ 56 * (v / 2 ^ 56 % 256)
      ≡ v
word_bytes-sum v lt = omega arith

word_at-bytes :
    (memory : ℕ → ℕ) (i v : ℕ)
    → v < 2 ^ 64
    → ((k : ℕ) → k < 8 → memory (8 * i + k) ≡ get_or (word_bytes v) k 0)
    → word_at memory i ≡ v
word_at-bytes memory i v lt h =
    rw
      (
        h 0 (omega arith),
        h 1 (omega arith),
        h 2 (omega arith),
        h 3 (omega arith),
        h 4 (omega arith),
        h 5 (omega arith),
        h 6 (omega arith),
        h 7 (omega arith),
      )
      (word_bytes-sum v lt)

module _ (values : ℕ → ℕ) (small : (r : ℕ) → values r < 2 ^ 64) where
  words_at-ctpm_allgather :
      (memory : ℕ → ℕ) (i n m : ℕ)
      → i + n ≤ m
      → ((r k : ℕ) → r < m → k < 8 → memory (8 * r + k) ≡ get_or (word_bytes (values r)) k 0)
      → words_at memory i n ≡ ctpm_allgather values i n
  unfolding words_at ctpm_allgather
  words_at-ctpm_allgather memory i zero m le h = refl
  words_at-ctpm_allgather memory i (suc n) m le h =
      ap₂ (λ v l. v ∷ l)
        (word_at-bytes memory i (values i) (small i) (λ k lt. h i k (omega arith) lt))
        (words_at-ctpm_allgather memory (suc i) n m (omega arith) h)

-- The memory that one call of `ctpm_Allgather` gets, how it is run, and where its result goes.
pub record Gather : Type 0 where
  pub fresh : List ℕ
  pub tmp_buf : List ℕ
  pub run : Schedule
  pub out_ptr : ℕ → ℕ

module _ (pmi : Pmi) where
  open pmi use {Store, value_max}

  -- Every rank sends, and those that are ahead send for other calls than number `cnt`.
  pub record IsGather (n cnt : ℕ) (g : Gather) : Type 0 where
    pub first_Below : Below n g.run.first
    pub early_Below : Below n g.run.early
    pub late_Below : Below n g.run.late
    pub every_first : (r : ℕ) → r < n → Memᴰ r g.run.first
    pub every : (r : ℕ) → r < n → Memᴰ r (g.run.early ++ g.run.late)
    pub others : AreOther pmi allg cnt g.run.ahead
    pub fresh_length : length g.fresh ≡ n * 4
    pub tmp_length : length g.tmp_buf ≡ n * 8

  -- `ctpm_Allgather(&value, sizeof(value), words)` by all ranks, and what one of them then reads in
  -- the array.
  unfoldable pub gather_words :
      ℕ → ℕ → (ℕ → ℕ) → Gather → Kept → Store → Outcome (List ℕ × Kept × Store)
  unfolding allgather words_at
  gather_words cnt n values g kept s =
      allgather pmi cnt n 8 (λ r. word_bytes (values r)) g.fresh g.tmp_buf g.run g.out_ptr kept s
      >>= (λ (words, known, later). ok (words_at words 0 n, known, later))

  -- `ctpm_Allgather` of a 64-bit value of each rank gives the list of the values in the order of the
  -- ranks, and keeps the ranks for the next call.
  pub gather_words-refines :
      (cnt n : ℕ) (values : ℕ → ℕ) (g : Gather) (kept : Kept) (s : Store)
      → ((r : ℕ) → values r < 2 ^ 64)
      → 16 < value_max
      → cnt + 1 < 2 ^ 31
      → n * 8 < 2 ^ 31
      → IsGather n (buffers_cnt pmi cnt kept) g
      → IsKept pmi n kept
      → (later : Store) × (gather_words cnt n values g kept s
          ≡ ok (ctpm_allgather values 0 n, kept_ranks pmi n, later))
  unfolding gather_words
  gather_words-refines cnt n values g kept s small v hc h is is_kept =
      let (out, known, later, runs, same, holds) =
        allgather-out pmi n 8 (λ r. word_bytes (values r)) g.run (omega arith) (omega arith)
          (word_bytes-Buffers values n) is.early_Below is.late_Below cnt g.fresh g.tmp_buf g.out_ptr
          kept s hc (omega arith) h is.first_Below is.every_first is.every is.others is.fresh_length
          is.tmp_length is_kept in
      (
        later,
        rw (runs, words_at-ctpm_allgather values small out 0 n n (omega arith) holds, same) refl,
      )
