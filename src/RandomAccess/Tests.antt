-- ===== src/RandomAccess/Tests.antt =====
-- random_access.c: runs on small inputs, and the theorems at inputs that meet their hypotheses.
use mathlib.Core.List.Perm
use mathlib.Core.List.{Memᴰ}
use cray_tests.Prelude.{
  ℕ, zero, suc, List, inl, ok, ◌∷◌, get_elem?, ◌+◌, ◌*◌, ◌%◌, ◌^◌, ◌<◌, ◌≤◌, ◌≡◌, ◌⊎◌, refl, false,
  true, Bool, not, ◌==◌, some, none, [], arith,
}
use cray_tests.RandomAccess.Stream.{next_ran, period, generate_initial_xor_val, fill_m2}
use cray_tests.RandomAccess.Stream.Linear.{serial}
use cray_tests.RandomAccess.Stream.Jump.{generate_initial_xor_val-eq-serial}
use cray_tests.RandomAccess.Layout.{
  layout, local_table_size, global_start_my_proc, remote_pe, index,
}
use cray_tests.RandomAccess.Layout.Division.{Fits, remote_pe-index}
use cray_tests.RandomAccess.Layout.Owner.{remote_pe-global_start}
use cray_tests.RandomAccess.Table.{Tables, updates, run, issued_all, initial}
use cray_tests.Pmi.Store.{immediate}
use cray_tests.Pmi.Allgather.{Kept, Schedule}
use cray_tests.Pmi.Allgather.Order.{kept_ranks}
use cray_tests.RandomAccess.Registration.Words.{Gather, IsGather}
use cray_tests.RandomAccess.Registration.Exchange.{Gathers, AreWords, exchange, exchange-refines}
use cray_tests.RandomAccess.Registration.{
  Registered, PeerData, peer_of, exchange_registration_data, get_elem?-exchange_registration_data,
}
use cray_tests.RandomAccess.Program.{random_access, random_access-aborts}
use cray_tests.RandomAccess.Table.Refine.{at_offset, serial_loop, update_table-refines}
use cray_tests.RandomAccess.Table.Partition.{serial_values, values, values-issued_all-eq-serial}

generate_initial_xor_val_thousand : generate_initial_xor_val 1000 ≡ 13165951353710706947
unfolding generate_initial_xor_val next_ran fill_m2
generate_initial_xor_val_thousand = refl

three_ranks : Fits 3 16
three_ranks = record {
  some_rank = omega arith;
  ranks_int = omega arith;
  size_u64 = omega arith;
  local_int = omega arith;
}

abbrev seed : ℕ
seed = 1000

generate_initial_xor_val-eq-serial_example :
    (k r : ℕ) × (seed ≡ k * period + r)
    × (r ≤ period)
    × ((seed ≡ 0) ⊎ (0 < r))
    × (generate_initial_xor_val seed ≡ serial r)
generate_initial_xor_val-eq-serial_example = generate_initial_xor_val-eq-serial seed

remote_pe-index_example :
    let l = layout 3 16 in
    (remote_pe l 7 < 3)
    × (index l 7 < local_table_size l (remote_pe l 7))
    × (global_start_my_proc l (remote_pe l 7) + index l 7 ≡ 7)
remote_pe-index_example = remote_pe-index three_ranks 7 (omega arith)

two_entries : 2 < local_table_size (layout 3 16) 1
unfolding local_table_size layout
two_entries = omega arith

remote_pe-global_start_example :
    let l = layout 3 16 in
    let offset = global_start_my_proc l 1 + 2 in
    (offset < 16) × (remote_pe l offset ≡ 1) × (index l offset ≡ 2)
remote_pe-global_start_example = remote_pe-global_start three_ranks 1 2 (omega arith) two_entries

abbrev bases : Tables
bases rank = 4096 * (rank % 8) + 65536

bases-lt : (rank : ℕ) → bases rank < 2 ^ 64
bases-lt rank = omega arith

update_table-refines_example :
    let l = layout 3 (2 ^ 4) in
    at_offset l (run bases (updates l 1 20 5) (initial l)) 7
    ≡ serial_loop (2 ^ 4) 20 5 (at_offset l (initial l)) 7
update_table-refines_example =
    update_table-refines 3 4 bases three_ranks bases-lt 1 20 5 (initial (layout 3 16)) 7
      (omega arith)

values-issued_all-eq-serial_example : values (issued_all (layout 3 16) 3) ≡ serial_values 1 (4 * 16)
values-issued_all-eq-serial_example = values-issued_all-eq-serial 3 16 (omega arith) (omega arith)

abbrev all_there : ℕ → Bool
all_there rank = true

-- The second of three ranks has no memory.
abbrev second_missing : ℕ → Bool
second_missing rank = not (rank == 1)

random_access-aborts_example : random_access 80 3 second_missing all_there bases [] [] ≡ none
random_access-aborts_example =
    random_access-aborts 80 3 1 second_missing all_there bases [] [] (omega arith) (omega arith)
      refl

-- Rank r has registered its table and its locks, and nothing stands in the peers yet.
abbrev registered : ℕ → Registered
registered r = record {
  table_addr = 65536 + r;
  table_key = 10 * r;
  lock_addr = 131072 + r;
  lock_key = 10 * r + 1;
}

abbrev no_peer : PeerData
no_peer = record { r_table_addr = 0; r_table_key = 0; r_lock_addr = 0; r_lock_key = 0 }

get_elem?-exchange_registration_data_example :
    get_elem? (exchange_registration_data 3 registered (no_peer ∷ no_peer ∷ no_peer ∷ [])) 2
    ≡ some (peer_of (registered 2))
get_elem?-exchange_registration_data_example =
    get_elem?-exchange_registration_data 3 2 registered (no_peer ∷ no_peer ∷ no_peer ∷ []) no_peer
      (omega arith) refl

-- The ranks send in turn, rank 1 its key before rank 0 reads the ranks.
abbrev one_run : Schedule
one_run = record { first = 1 ∷ 0 ∷ []; early = 1 ∷ []; late = 0 ∷ []; ahead = [] }

both_ranks : (r : ℕ) → r < 2 → Memᴰ r (1 ∷ 0 ∷ [])
both_ranks zero h = Memᴰ.tail (Memᴰ.head refl)
both_ranks (suc zero) h = Memᴰ.head refl
both_ranks (suc (suc r)) h = absurd (omega arith)

abbrev nothing_kept : Kept
nothing_kept = record { already_called = false; ivec_ptr = [] }

abbrev no_words : List ℕ
no_words = 0 ∷ 0 ∷ 0 ∷ 0 ∷ 0 ∷ 0 ∷ 0 ∷ 0 ∷ 0 ∷ 0 ∷ 0 ∷ 0 ∷ 0 ∷ 0 ∷ 0 ∷ 0 ∷ []

abbrev one_gather : Gather
one_gather = record {
  fresh = 0 ∷ 0 ∷ 0 ∷ 0 ∷ 0 ∷ 0 ∷ 0 ∷ 0 ∷ [];
  tmp_buf = no_words;
  run = one_run;
  out_ptr = λ _. 0;
}

one_gather-IsGather : (cnt : ℕ) → IsGather immediate 2 cnt one_gather
one_gather-IsGather cnt = record {
  first_Below = (omega arith, (omega arith, tt));
  early_Below = (omega arith, tt);
  late_Below = (omega arith, tt);
  every_first = both_ranks;
  every = both_ranks;
  others = tt;
  fresh_length = refl;
  tmp_length = refl;
}

abbrev four_gathers : Gathers
four_gathers = record {
  table_keys = one_gather;
  lock_keys = one_gather;
  table_addrs = one_gather;
  lock_addrs = one_gather;
}

abbrev words_of : ℕ → Registered
words_of r = record {
  table_addr = 2 ^ 40 + r % 1000;
  table_key = 10 * (r % 1000);
  lock_addr = 2 ^ 41 + r % 1000;
  lock_key = 10 * (r % 1000) + 1;
}

words_of-AreWords : AreWords words_of
words_of-AreWords = record {
  table_key = λ r. omega arith;
  lock_key = λ r. omega arith;
  table_addr = λ r. omega arith;
  lock_addr = λ r. omega arith;
}

exchange-refines_example :
    (later : immediate.Store) × (exchange immediate 0 2 words_of four_gathers
        (no_peer ∷ no_peer ∷ [])
        nothing_kept
        []
      ≡ ok (
        exchange_registration_data 2 words_of (no_peer ∷ no_peer ∷ []),
        kept_ranks immediate 2,
        later,
      ))
exchange-refines_example =
    exchange-refines immediate 0 2 words_of four_gathers (no_peer ∷ no_peer ∷ []) nothing_kept []
      words_of-AreWords (omega arith) (omega arith) (omega arith) (one_gather-IsGather 1)
      (one_gather-IsGather 2) (one_gather-IsGather 3) (one_gather-IsGather 4) (inl refl)
