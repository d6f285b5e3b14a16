-- ===== src/Pmi/Tests.antt =====
-- common/ct_utils.c: the collectives over a store that shows each value at once, and the theorems
-- at inputs that meet their hypotheses.
use mathlib.Core.List.{Memᴰ}
use cray_tests.Prelude.{
  ℕ, zero, suc, ◌+◌, ◌*◌, ◌<◌, ◌≡◌, inl, inr, false, true, refl, arith, List, [], ◌∷◌, ok, fault,
}
use cray_tests.Pmi.Encoding.{encode}
use cray_tests.Pmi.Key.{key, allg, idstr}
use cray_tests.Pmi.Store.{immediate, text_eq_refl}
use cray_tests.Pmi.Message.{gni_pmi_receive, stored, gni_pmi_receive-over_read}
use cray_tests.Pmi.Collective.{
  Send, send_all, run_ahead, allgather_receive, bcast_send, bcast_receive, gathered,
}
use cray_tests.Pmi.Published.{Buffers}
use cray_tests.Pmi.Gather.{allgather_lem, bcast_lem}
use cray_tests.Pmi.Allgather.{Kept, Schedule, allgather}
use cray_tests.Pmi.Allgather.Order.{IsKept, allgather-in_rank_order}

abbrev two_bytes : List ℕ
two_bytes = 7 ∷ 255 ∷ []

encode-two_bytes : encode two_bytes ≡ 104 ∷ 97 ∷ 112 ∷ 112 ∷ 0 ∷ []
unfolding encode
encode-two_bytes = refl

-- The buffer of a rank: one byte.
abbrev letter_of : ℕ → List ℕ
letter_of zero = 65 ∷ []
letter_of (suc r) = 66 ∷ []

letter_of-Buffers : Buffers letter_of 2 1
letter_of-Buffers zero h = (refl, (omega arith, tt))
letter_of-Buffers (suc r) h = (refl, (omega arith, tt))

abbrev backwards : List ℕ
backwards = 1 ∷ 0 ∷ []

every_rank : (r : ℕ) → r < 2 → Memᴰ r backwards
every_rank zero h = Memᴰ.tail (Memᴰ.head refl)
every_rank (suc zero) h = Memᴰ.head refl
every_rank (suc (suc r)) h = absurd (omega arith)

-- Rank 0 has already sent for its next gather.
abbrev one_ahead : List Send
one_ahead = (allg, 1, 0, two_bytes) ∷ []

allgather_lem_example :
    (sent : immediate.Store) × (later : immediate.Store) × (send_all immediate 0 letter_of backwards
        []
      ≡ ok sent)
    × (run_ahead immediate one_ahead (immediate.barrier sent) ≡ ok later)
    × (allgather_receive immediate 0 2 (0 ∷ 0 ∷ []) 1 later ≡ ok (gathered letter_of 0 2))
allgather_lem_example =
    allgather_lem immediate 0 2 1 letter_of backwards one_ahead (0 ∷ 0 ∷ []) [] (omega arith)
      (omega arith) (omega arith) letter_of-Buffers (omega arith, (omega arith, tt)) every_rank
      (refl, omega arith, omega arith, omega arith, inr (λ e. absurd (omega arith)), tt) refl

bcast_lem_example :
    (sent : immediate.Store) × (bcast_send immediate 0 5 two_bytes [] ≡ ok sent)
    × (bcast_receive immediate 1 5 (0 ∷ 0 ∷ []) 2 (immediate.barrier sent) ≡ ok two_bytes)
bcast_lem_example =
    bcast_lem immediate 5 1 2 two_bytes (0 ∷ 0 ∷ []) [] (omega arith) (omega arith) refl
      (omega arith, (omega arith, tt)) refl (λ e. absurd (omega arith))

abbrev one_put : immediate.Store
one_put = stored immediate 0 (idstr allg 0) two_bytes []

gni_pmi_receive-over_read_example :
    gni_pmi_receive immediate (idstr allg 0) 0 (0 ∷ 0 ∷ 0 ∷ []) 3 one_put ≡ fault
gni_pmi_receive-over_read_example =
    gni_pmi_receive-over_read immediate (idstr allg 0) 0 two_bytes (0 ∷ 0 ∷ 0 ∷ []) 3 one_put
      (rw (text_eq_refl (key (idstr allg 0) 0)) refl) (omega arith, (omega arith, tt)) (omega arith)
      (omega arith)

abbrev no_bytes : ℕ → ℕ
no_bytes a = 0

-- Rank 1 sends its buffer before the ranks are read, and rank 0 is ahead with a later call.
abbrev one_run : Schedule
one_run = record {
  first = backwards;
  early = 1 ∷ [];
  late = 0 ∷ [];
  ahead = (allg, 2, 0, two_bytes) ∷ [];
}

abbrev nothing_kept : Kept
nothing_kept = record { already_called = false; ivec_ptr = [] }

allgather-in_rank_order_example :
    (out : ℕ → ℕ) × (known : Kept) × (later : immediate.Store) × (allgather immediate 0 2 1
        letter_of
        (0 ∷ 0 ∷ 0 ∷ 0 ∷ 0 ∷ 0 ∷ 0 ∷ 0 ∷ [])
        (0 ∷ 0 ∷ [])
        one_run
        no_bytes
        nothing_kept
        []
      ≡ ok (out, known, later))
    × (known.already_called ≡ true)
    × IsKept immediate 2 known
    × (out (1 * 1 + 0) ≡ 66)
allgather-in_rank_order_example =
    allgather-in_rank_order immediate 2 1 letter_of one_run (omega arith) (omega arith)
      letter_of-Buffers (omega arith, tt) (omega arith, tt) 0 1 0
      (0 ∷ 0 ∷ 0 ∷ 0 ∷ 0 ∷ 0 ∷ 0 ∷ 0 ∷ []) (0 ∷ 0 ∷ []) no_bytes nothing_kept [] (omega arith)
      (omega arith) (omega arith) (omega arith, (omega arith, tt)) every_rank every_rank
      (refl, omega arith, omega arith, omega arith, inr (λ e. absurd (omega arith)), tt) refl refl
      (inl refl) (omega arith) (omega arith)
