-- ===== src/Pmi/Allgather/Order.antt =====
-- common/ct_utils.c: `allgather` puts the buffers of the ranks in rank order.
use mathlib.Core.List.{Memᴰ}
use cray_tests.Prelude.{
  ℕ, ◌+◌, ◌*◌, ◌^◌, ◌<◌, ◌≡◌, inr, inl, refl, sym, ap₂, Bool, ◌∙◌, arith, Bool-cases, true, false,
  ◌⊎◌, List, ◌++◌, length, get_or, ok,
}
use cray_tests.Pmi.Key.{allg}
use cray_tests.Pmi.Store.{Pmi}
use cray_tests.Pmi.Collective.{send_all, gathered}
use cray_tests.Pmi.Published.{Buffers, Below, AreOther, send_all-Published}
use cray_tests.Pmi.Gather.{allgather_lem}
use cray_tests.Pmi.Reorder.{reorder_lem}
use cray_tests.Pmi.Allgather.Sends.{
  sends_of, send_all-run_ahead, sends_of-AreOther, send_all-append,
}
use cray_tests.Pmi.Allgather.Ranks.{
  ranks_from, gathered-joined, ints-gathered, int_bytes-Buffers, ranks_from-Below, mem-ranks_from,
  Below-append,
}
use cray_tests.Pmi.Allgather.{
  int_bytes, ints, Kept, Schedule, buffers_cnt, know_ranks, collect, allgather,
}

module _ (pmi : Pmi) where
  open pmi use {Store, barrier, value_max}

  buffers_cnt-less : (cnt : ℕ) (kept : Kept) → cnt + 1 < 2 ^ 31 → buffers_cnt pmi cnt kept < 2 ^ 31
  buffers_cnt-less cnt kept lt = ground arith

  -- What `allgather` has when it has been called.
  abbrev pub kept_ranks : ℕ → Kept
  kept_ranks n = record { already_called = true; ivec_ptr = ranks_from 0 n }

  kept_ranks-ext :
      (n : ℕ) (known : Kept)
      → known.already_called ≡ true
      → known.ivec_ptr ≡ ranks_from 0 n
      → known ≡ kept_ranks n
  kept_ranks-ext n known called ivec =
      ap₂ (λ (b : Bool) (l : List ℕ). record { already_called = b; ivec_ptr = l }) called ivec

  -- What `allgather` keeps between calls.
  abbrev pub IsKept : ℕ → Kept → Type 0
  IsKept n kept = (kept.already_called ≡ false) ⊎ (kept.ivec_ptr ≡ ranks_from 0 n)

  kept-ivec :
      (n : ℕ) (kept : Kept)
      → kept.already_called ≡ true
      → IsKept n kept
      → kept.ivec_ptr ≡ ranks_from 0 n
  kept-ivec n kept called (inl new) = absurd (ground arith)
  kept-ivec n kept called (inr e) = e

  module _ (n len : ℕ) (src : ℕ → List ℕ) (run : Schedule) (small : n < 2 ^ 31)
      (fits : 2 * len < value_max) (buffers : Buffers src n len) (low_early : Below n run.early)
      (low_late : Below n run.late) where
    know_ranks-known :
        (cnt : ℕ) (fresh : List ℕ) (kept : Kept) (s : Store)
        → cnt + 1 < 2 ^ 31
        → 8 < value_max
        → Below n run.first
        → ((r : ℕ) → r < n → Memᴰ r run.first)
        → length fresh ≡ n * 4
        → IsKept n kept
        → (known : Kept) × (begun : Store) × (base : Store) × (know_ranks pmi cnt n src fresh run
              kept s
            ≡ ok (known, begun))
          × (known.already_called ≡ true)
          × (known.ivec_ptr ≡ ranks_from 0 n)
          × (send_all pmi (buffers_cnt pmi cnt kept) src run.early base ≡ ok begun)
    unfolding know_ranks
    know_ranks-known cnt fresh kept s hc v low every l is_kept =
        elim (Bool-cases kept.already_called) [
          | inl called ↦
              let (begun, early, _) =
                send_all-Published pmi cnt n len src run.early s (omega arith) small fits buffers
                  low_early in
              (
                kept,
                begun,
                s,
                rw (called, early) refl,
                called,
                kept-ivec n kept called is_kept,
                rw called early,
              )
          | inr new ↦
              let (sent, begun, sends, early, reads) =
                allgather_lem pmi cnt n 4 int_bytes run.first (sends_of pmi (cnt + 1) src run.early)
                  fresh s (omega arith) small v (int_bytes-Buffers n) low every
                  (sends_of-AreOther pmi cnt (cnt + 1) n len src run.early (omega arith) hc small
                    fits buffers low_early)
                  l in
              let early' = send_all-run_ahead pmi (cnt + 1) src run.early (barrier sent) ∙ early in
              (
                record { already_called = true; ivec_ptr = ints (gathered int_bytes 0 n) },
                begun,
                barrier sent,
                rw (new, sends, early', reads) refl,
                refl,
                ints-gathered 0 n (omega arith),
                rw new early',
              )
        ]

    collect-out :
        (next : ℕ) (tmp_buf : List ℕ) (out_ptr : ℕ → ℕ) (known : Kept) (begun base : Store)
        → next < 2 ^ 31
        → send_all pmi next src run.early base ≡ ok begun
        → known.ivec_ptr ≡ ranks_from 0 n
        → ((r : ℕ) → r < n → Memᴰ r (run.early ++ run.late))
        → AreOther pmi allg next run.ahead
        → length tmp_buf ≡ n * len
        → n * len < 2 ^ 31
        → (out : ℕ → ℕ) × (later : Store) × (collect pmi next n len src tmp_buf run out_ptr known
              begun
            ≡ ok (out, known, later))
          × ((r k : ℕ) → r < n → k < len → out (len * r + k) ≡ get_or (src r) k 0)
    unfolding collect
    collect-out next tmp_buf out_ptr known begun base hc early ivec every others l h =
        let (sent, later, sends, ahead, reads) =
          allgather_lem pmi next n len src (run.early ++ run.late) run.ahead tmp_buf base hc small
            fits buffers (Below-append n run.early run.late low_early low_late) every others l in
        let late : send_all pmi next src run.late begun ≡ ok sent =
          sym (send_all-append pmi next src run.early run.late base ∙ rw early refl) ∙ sends in
        let (out, placed, holds) =
          reorder_lem src n len (ranks_from 0 n) out_ptr (λ r lt. (buffers r lt).0)
            (ranks_from-Below n 0 n (omega arith))
            (λ r lt. mem-ranks_from 0 n r (omega arith) (omega arith)) h in
        (out, later, rw (late, ahead, reads, gathered-joined src 0 n, ivec, placed) refl, holds)

    pub allgather-out :
        (cnt : ℕ) (fresh tmp_buf : List ℕ) (out_ptr : ℕ → ℕ) (kept : Kept) (s : Store)
        → cnt + 1 < 2 ^ 31
        → 8 < value_max
        → n * len < 2 ^ 31
        → Below n run.first
        → ((rank : ℕ) → rank < n → Memᴰ rank run.first)
        → ((rank : ℕ) → rank < n → Memᴰ rank (run.early ++ run.late))
        → AreOther pmi allg (buffers_cnt pmi cnt kept) run.ahead
        → length fresh ≡ n * 4
        → length tmp_buf ≡ n * len
        → IsKept n kept
        → (out : ℕ → ℕ) × (known : Kept) × (later : Store) × (allgather pmi cnt n len src fresh
              tmp_buf run out_ptr kept s
            ≡ ok (out, known, later))
          × (known ≡ kept_ranks n)
          × ((r k : ℕ) → r < n → k < len → out (len * r + k) ≡ get_or (src r) k 0)
    unfolding allgather
    allgather-out cnt fresh tmp_buf out_ptr kept s hc v h low every1 every2 others lf lt is_kept =
        let (known, begun, base, knows, called, ivec, early) =
          know_ranks-known cnt fresh kept s hc v low every1 lf is_kept in
        let (out, later, collects, holds) =
          collect-out (buffers_cnt pmi cnt kept) tmp_buf out_ptr known begun base
            (buffers_cnt-less cnt kept hc) early ivec every2 others lt h in
        (out, known, later, rw (knows, collects) refl, kept_ranks-ext n known called ivec, holds)

    -- `allgather`, called by all ranks, whether or not it has been called before, puts byte `k` of
    -- the buffer of rank `r` at place `len * r + k` of the output, whatever the orders in which the
    -- ranks send and whatever they are ahead with, and keeps the ranks for the next call. The
    -- numbers of calls and of ranks, and the size of the output, fit an `int`, and the values fit
    -- the store.
    pub allgather-in_rank_order :
        (cnt r k : ℕ) (fresh tmp_buf : List ℕ) (out_ptr : ℕ → ℕ) (kept : Kept) (s : Store)
        → cnt + 1 < 2 ^ 31
        → 8 < value_max
        → n * len < 2 ^ 31
        → Below n run.first
        → ((rank : ℕ) → rank < n → Memᴰ rank run.first)
        → ((rank : ℕ) → rank < n → Memᴰ rank (run.early ++ run.late))
        → AreOther pmi allg (buffers_cnt pmi cnt kept) run.ahead
        → length fresh ≡ n * 4
        → length tmp_buf ≡ n * len
        → IsKept n kept
        → r < n
        → k < len
        → (out : ℕ → ℕ) × (known : Kept) × (later : Store) × (allgather pmi cnt n len src fresh
              tmp_buf run out_ptr kept s
            ≡ ok (out, known, later))
          × (known.already_called ≡ true)
          × IsKept n known
          × (out (len * r + k) ≡ get_or (src r) k 0)
    allgather-in_rank_order cnt r k fresh tmp_buf out_ptr kept s hc v h low every1 every2 others lf
          lt is_kept hr hk =
        let (out, known, later, runs, same, holds) =
          allgather-out cnt fresh tmp_buf out_ptr kept s hc v h low every1 every2 others lf lt
            is_kept in
        (out, known, later, runs, rw same refl, rw same (inr refl), holds r k hr hk)
