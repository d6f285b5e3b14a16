-- ===== src/Pmi/Allgather.antt =====
-- common/ct_utils.c: `allgather`, which is `ctpm_Allgather`, for a job whose collectives are those of
-- this file: the first call also gathers the ranks, and every call puts the blocks at their places.
pub mod Ranks
pub mod Sends
pub mod Order
use mathlib.Core.List.Memᴰ
use mathlib.Core.List.{Memᴰ}
use cray_tests.Prelude.{
  dec_lt, ℕ, ◌≢◌, inr, zero, suc, ◌+◌, ◌*◌, ◌/◌, ◌%◌, ◌^◌, ◌<◌, ◌≤◌, ◌≡◌, refl, ap, ap₂, arith,
  Bool, true, false, List, [], ◌∷◌, ◌++◌, length, get_or, Outcome, ok, ◌>>=◌, bind_assoc, sym, ◌∙◌,
  if◌then◌else◌,
}
use cray_tests.Pmi.Encoding.{IsBytes}
use cray_tests.Pmi.Key.{allg, idstr}
use cray_tests.Pmi.Message.{gni_pmi_send}
use cray_tests.Pmi.Store.{Pmi}
use cray_tests.Pmi.Collective.{
  allgather_send, send_all, Send, run_ahead, allgather_receive, gathered,
}
use cray_tests.Pmi.Published.{Buffers, Below, AreOther}
use cray_tests.Pmi.Gather.{allgather_lem}
use cray_tests.Pmi.Reorder.{reorder, joined, reorder_lem}

-- The memory of an `int` that is not negative, and of an array of them.
abbrev pub int_bytes : ℕ → List ℕ
int_bytes v = v % 256 ∷ v / 256 % 256 ∷ v / 65536 % 256 ∷ v / 16777216 % 256 ∷ []

unfoldable pub ints : List ℕ → List ℕ
ints (a ∷ b ∷ c ∷ d ∷ bytes) = (a + 256 * b + 65536 * c + 16777216 * d) ∷ ints bytes
ints _ = []

-- The variables that `allgather` keeps; `job_size` is the number of ranks.
pub record Kept : Type 0 where
  pub already_called : Bool
  pub ivec_ptr : List ℕ

-- A run of one call by all ranks, as one of them sees it: the order of the sends of the ranks, if
-- they are gathered, those of the buffers before and after this rank reads the ranks, and what
-- ranks that are through send for later calls before it reads the buffers.
pub record Schedule : Type 0 where
  pub first : List ℕ
  pub early : List ℕ
  pub late : List ℕ
  pub ahead : List Send

module _ (pmi : Pmi) where
  open pmi use {Store, barrier}

  -- The number of the call of `PMI_Allgather` that gathers the buffers, when `cnt` is the next one.
  abbrev pub buffers_cnt : ℕ → Kept → ℕ
  buffers_cnt cnt kept = if kept.already_called then cnt else cnt + 1

  -- `allgather` up to where `ivec_ptr` is known; `fresh` is what its `malloc` gave.
  unfoldable pub know_ranks :
      ℕ → ℕ → (ℕ → List ℕ) → List ℕ → Schedule → Kept → Store → Outcome (Kept × Store)
  unfolding send_all allgather_receive ints
  know_ranks cnt job_size src fresh run kept s =
      if kept.already_called
      then send_all pmi cnt src run.early s >>= (λ begun. ok (kept, begun))
      else send_all pmi cnt int_bytes run.first s
        >>= (λ sent. send_all pmi (cnt + 1) src run.early (barrier sent))
        >>= (λ begun.
            allgather_receive pmi cnt job_size fresh 4 begun
            >>= (λ blocks. ok (record { already_called = true; ivec_ptr = ints blocks }, begun)))

  -- The rest of `allgather`; `tmp_buf` is what its second `malloc` gave.
  unfoldable pub collect :
      ℕ
      → ℕ
      → ℕ
      → (ℕ → List ℕ)
      → List ℕ
      → Schedule
      → (ℕ → ℕ)
      → Kept
      → Store
      → Outcome ((ℕ → ℕ) × Kept × Store)
  unfolding send_all run_ahead allgather_receive reorder
  collect cnt job_size len src tmp_buf run out_ptr known begun =
      send_all pmi cnt src run.late begun
      >>= (λ sent. run_ahead pmi run.ahead (barrier sent))
      >>= (λ later. allgather_receive pmi cnt job_size tmp_buf len later >>= (λ blocks.
          reorder known.ivec_ptr blocks len out_ptr >>= (λ out. ok (out, known, later))))

  unfoldable pub allgather :
      ℕ
      → ℕ
      → ℕ
      → (ℕ → List ℕ)
      → List ℕ
      → List ℕ
      → Schedule
      → (ℕ → ℕ)
      → Kept
      → Store
      → Outcome ((ℕ → ℕ) × Kept × Store)
  unfolding know_ranks collect
  allgather cnt job_size len src fresh tmp_buf run out_ptr kept s =
      know_ranks cnt job_size src fresh run kept s >>= (λ (known, begun).
        collect (buffers_cnt cnt kept) job_size len src tmp_buf run out_ptr known begun)
