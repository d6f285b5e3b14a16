-- ===== src/RandomAccess/Table.antt =====
-- performance/multi-node/random_access.c: `update_table`, `lf_atomic_xor` and the verification
-- phase of `random_access`, over the tables of all ranks. An atomic update is one indivisible step
-- at the rank that owns the entry, so a run of `update_table` on all ranks is some order of the
-- updates that they issue.
mod Total
pub mod Verify
pub mod Refine
pub mod Partition
use cray_tests.Prelude.{
  ℕ, zero, suc, ◌+◌, ◌-◌, ◌*◌, ◌/◌, ◌%◌, ◌^◌, bit_and, bit_xor, Bool, true, false, ◌&&◌, List, [],
  ◌∷◌, ◌++◌, map, ltb, ◌==◌, if◌then◌else◌,
}
use cray_tests.RandomAccess.Stream.{next_ran, generate_initial_xor_val}
use cray_tests.RandomAccess.Layout.{
  Layout, local_table_size, global_start_my_proc, remote_pe, index,
}

-- What `exchange_registration_data` leaves: the address of each rank's `hpcc_table`.
abbrev pub Tables : Type 0
Tables = ℕ → ℕ

-- The entries of `hpcc_table`, by rank and index.
abbrev pub Memory : Type 0
Memory = ℕ → ℕ → ℕ

-- A call `lf_atomic_xor(&table[index], ran, remote_pe)` of one rank.
pub record Update : Type 0 where
  pub caller : ℕ
  pub pe : ℕ
  pub entry : ℕ
  pub val : ℕ

-- The loop of `update_table`, with `n` iterations left.
pub updates : Layout → ℕ → ℕ → ℕ → List Update
updates l caller zero ran = []
updates l caller (suc n) ran =
    let ran' = next_ran ran in
    let global_offset = bit_and ran' (l.table_size - 1) in
    record {
      caller = caller;
      pe = remote_pe l global_offset;
      entry = index l global_offset;
      val = ran';
    }
    ∷ updates l caller n ran'

-- `rem_addr` in `lf_atomic_xor`.
pub rem_addr : Tables → Update → ℕ
rem_addr tables u =
    let addr = (tables u.caller + 8 * u.entry) % 2 ^ 64 in
    (tables u.pe + (addr + 2 ^ 64 - tables u.caller)) % 2 ^ 64

-- The entry of the owner's table that stands at an address.
abbrev entry_at : Tables → ℕ → ℕ → ℕ
entry_at tables pe addr = (addr + 2 ^ 64 - tables pe) % 2 ^ 64 / 8

pub lf_atomic_xor : Tables → Memory → Update → Memory
unfolding rem_addr
lf_atomic_xor tables mem u pe i =
    if u.pe == pe && entry_at tables u.pe (rem_addr tables u) == i
    then bit_xor (mem pe i) u.val
    else mem pe i

-- The updates take place one after another, in the order of the list.
pub run : Tables → List Update → Memory → Memory
run tables [] mem = mem
run tables (u ∷ us) mem = run tables us (lf_atomic_xor tables mem u)

-- What rank `rank` issues in one call of `update_table`.
pub issued : Layout → ℕ → List Update
issued l rank =
    updates l rank (4 * local_table_size l rank)
      (generate_initial_xor_val (4 * global_start_my_proc l rank))

pub issued_all : Layout → ℕ → List Update
issued_all l zero = []
issued_all l (suc rank) = issued_all l rank ++ issued l rank

-- `hpcc_table[i] = i + global_start_my_proc`
pub initial : Layout → Memory
initial l rank i = i + global_start_my_proc l rank

-- The loop that counts the errors of one rank, over its first `n` entries.
pub num_errors : Layout → Memory → ℕ → ℕ → ℕ
num_errors l mem rank zero = 0
num_errors l mem rank (suc n) =
    num_errors l mem rank n + (if mem rank n == n + global_start_my_proc l rank then 0 else 1)

-- `ct_allreduce_int64_sum` over the ranks.
pub global_num_errors : Layout → Memory → ℕ → ℕ
unfolding num_errors
global_num_errors l mem zero = 0
global_num_errors l mem (suc rank) =
    global_num_errors l mem rank + num_errors l mem rank (local_table_size l rank)

-- `global_num_errors > 0.01 * table_size`
pub failure : Layout → Memory → Bool
unfolding global_num_errors
failure l mem = ltb l.table_size (100 * global_num_errors l mem l.num_ranks)
