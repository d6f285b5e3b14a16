-- ===== src/RandomAccess/Layout/Size.antt =====
-- random_access.c: the loop that chooses the table's size.
use cray_tests.Prelude.{ℕ, ◌*◌, ◌^◌, ◌<◌, ◌≤◌, ◌≡◌}
use cray_tests.RandomAccess.Layout.{TableSize}

-- What the loop keeps: `k` halvings after the first one.
record AtRound (mem den k : ℕ) (s : TableSize) : Type 0 where
  log : s.log_table_size ≡ k
  size : s.table_size ≡ 2 ^ k
  denominator : den ≡ 16 * 2 ^ k
  enough : 8 * 2 ^ k ≤ mem

record Chosen (mem : ℕ) (s : TableSize) : Type 0 where
  power : s.table_size ≡ 2 ^ s.log_table_size
  fits : 8 * s.table_size ≤ mem
  largest : mem < 16 * s.table_size
