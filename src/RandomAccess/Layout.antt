-- ===== src/RandomAccess/Layout.antt =====
-- performance/multi-node/random_access.c, `random_access`: the size of the table, and how it is
-- divided between the ranks; `update_table`: the rank and the index of a table entry.
pub mod Size
pub mod Division
pub mod Owner
use cray_tests.Prelude.{ℕ, zero, suc, ◌+◌, ◌-◌, ◌*◌, ◌/◌, ◌%◌, ◌^◌, ltb, leb, ◌==◌, if◌then◌else◌}

pub record TableSize : Type 0 where
  pub log_table_size : ℕ
  pub table_size : ℕ

-- The `double total_mem` is the fraction `mem / den`: its values are exact while `mem` is below
-- 2 ^ 53, since a product with 0.5 only doubles the denominator.
pub table_size_loop : ℕ → ℕ → ℕ → TableSize → TableSize
table_size_loop zero mem den s = s
table_size_loop (suc fuel) mem den s =
    let rest =
      table_size_loop fuel mem (den * 2) (record {
        log_table_size = s.log_table_size + 1;
        table_size = s.table_size * 2 % 2 ^ 64;
      }) in
    if leb den mem then rest else s

-- Bytes of memory over all ranks.
unfoldable pub total_bytes : ℕ → ℕ → ℕ
total_bytes total_mem_opt num_ranks =
    (if total_mem_opt == 0 then 200000 else total_mem_opt) * num_ranks

-- `total_mem /= 8` and the first halving make the denominator 16.
pub choose_table_size : ℕ → ℕ → TableSize
unfolding table_size_loop
choose_table_size total_mem_opt num_ranks =
    let mem = total_bytes total_mem_opt num_ranks in
    table_size_loop mem mem 16 (record { log_table_size = 0; table_size = 1 })

pub record Layout : Type 0 where
  pub num_ranks : ℕ
  pub table_size : ℕ
  pub min_local_table_size : ℕ
  pub remainder : ℕ
  pub num_top_table_entries : ℕ

unfoldable pub layout : ℕ → ℕ → Layout
layout num_ranks table_size =
    let min_local_table_size = table_size / num_ranks in
    let remainder = table_size - min_local_table_size * num_ranks in
    record {
      num_ranks = num_ranks;
      table_size = table_size;
      min_local_table_size = min_local_table_size;
      remainder = remainder;
      num_top_table_entries = (min_local_table_size + 1) * remainder;
    }

-- An `int` as a bit pattern of 32 bits, and its conversion to `uint64_t`.
abbrev pub to_int : ℕ → ℕ
to_int x = x % 2 ^ 32

abbrev pub int_to_u64 : ℕ → ℕ
int_to_u64 w = if ltb w (2 ^ 31) then w else w + 2 ^ 64 - 2 ^ 32

module _ (l : Layout) where
  open l use {min_local_table_size, remainder, num_top_table_entries}

  unfoldable pub local_table_size : ℕ → ℕ
  local_table_size rank =
      if ltb rank remainder then min_local_table_size + 1 else min_local_table_size

  unfoldable pub global_start_my_proc : ℕ → ℕ
  global_start_my_proc rank =
      if ltb rank remainder
      then (min_local_table_size + 1) * rank
      else min_local_table_size * rank + remainder

  unfoldable pub remote_pe : ℕ → ℕ
  remote_pe global_offset =
      if ltb global_offset num_top_table_entries
      then to_int (global_offset / (min_local_table_size + 1))
      else to_int ((global_offset - remainder) / min_local_table_size)

  unfoldable pub global_start_at_pe : ℕ → ℕ
  global_start_at_pe global_offset =
      let pe = int_to_u64 (remote_pe global_offset) in
      if ltb global_offset num_top_table_entries
      then to_int ((min_local_table_size + 1) * pe)
      else to_int (min_local_table_size * pe + remainder)

  -- `index = global_offset - global_start_at_pe`, cut to an `int`.
  unfoldable pub index : ℕ → ℕ
  index global_offset =
      to_int ((global_offset + 2 ^ 64 - int_to_u64 (global_start_at_pe global_offset)) % 2 ^ 64)
