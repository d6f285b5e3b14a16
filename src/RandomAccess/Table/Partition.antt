-- ===== src/RandomAccess/Table/Partition.antt =====
-- random_access.c: the ranks share the stream of updates out among them.
use cray_tests.Prelude.{
  ℕ, zero, suc, ◌+◌, ◌*◌, ◌<◌, ◌≤◌, List, [], ◌∷◌, ◌++◌, map, ◌≡◌, refl, sym, ap, ap₂, ◌∙◌, arith,
}
use mathlib.Core.List.{map-append}
use cray_tests.RandomAccess.Stream.{period, generate_initial_xor_val}
use cray_tests.RandomAccess.Stream.Linear.{serial}
use cray_tests.RandomAccess.Stream.Jump.{generate_initial_xor_val-eq-serial}
use cray_tests.RandomAccess.Layout.{Layout, layout, local_table_size, global_start_my_proc}
use cray_tests.RandomAccess.Layout.Owner.{start-zero, start-suc, start-num_ranks, end-le-size}
use cray_tests.RandomAccess.Table.{Update, updates, issued, issued_all}

-- The `n` values of the serial stream from place `m` on.
pub serial_values : ℕ → ℕ → List ℕ
serial_values m zero = []
serial_values m (suc n) = serial m ∷ serial_values (suc m) n

serial_values-add :
    (m a b : ℕ) → serial_values m (a + b) ≡ serial_values m a ++ serial_values (m + a) b
unfolding serial_values
serial_values-add m zero b =
    let none : zero + b ≡ b = omega arith in
    let here : m + zero ≡ m = omega arith in rw (none, here)
serial_values-add m (suc a) b =
    let count : suc a + b ≡ suc (a + b) = omega arith in
    let place : m + suc a ≡ suc m + a = omega arith in
    rw (count, place) (ap (λ t. serial m ∷ t) (serial_values-add (suc m) a b))

abbrev pub values : List Update → List ℕ
values = map (λ u. u.val)

values-updates :
    (l : Layout) (caller n m : ℕ) → values (updates l caller n (serial m)) ≡ serial_values (suc m) n
unfolding updates serial_values serial
values-updates l caller zero m = refl
values-updates l caller (suc n) m = ap (λ t. serial (suc m) ∷ t) (values-updates l caller n (suc m))

initial_place : (seed : ℕ) → seed ≤ period → generate_initial_xor_val seed ≡ serial seed
initial_place seed h =
    let (k, r, whole, small, pos, e) = generate_initial_xor_val-eq-serial seed in
    let same : r ≡ seed = omega arith in e ∙ ap serial same

module _ (num_ranks size : ℕ) (some_rank : 0 < num_ranks) (short : 4 * size ≤ period) where
  values-issued_all :
      (p : ℕ)
      → p ≤ num_ranks
      → let l = layout num_ranks size in
        values (issued_all l p) ≡ serial_values 1 (4 * global_start_my_proc l p)
  unfolding issued_all issued
  values-issued_all zero h =
      let place : 4 * global_start_my_proc (layout num_ranks size) 0 ≡ 0 =
        omega (arith, start-zero num_ranks size) in
      rw place (unfold serial_values in refl)
  values-issued_all (suc p) h =
      let l = layout num_ranks size in
      let begin = global_start_my_proc l p in
      let seed = initial_place (4 * begin) (omega (arith, end-le-size num_ranks size p h)) in
      map-append (λ (u : Update). u.val) (issued_all l p) _
      ∙ ap₂ ◌++◌ (values-issued_all p (omega arith)) (
          ap (λ ran. values (updates l p (4 * local_table_size l p) ran)) seed
          ∙ values-updates l p _ (4 * begin))
      ∙ ap (λ m. serial_values 1 (4 * begin) ++ serial_values m (4 * local_table_size l p))
          (omega arith)
      ∙ sym (serial_values-add 1 (4 * begin) (4 * local_table_size l p))
      ∙ ap (serial_values 1) (omega (arith, start-suc num_ranks size p))

-- While four updates for each entry stay within one period of the stream, the updates that the
-- ranks issue, rank after rank, carry exactly the first 4 * size values of the serial stream, in
-- its order: no value is left out and none is taken twice.
pub values-issued_all-eq-serial :
    (num_ranks size : ℕ)
    → 0 < num_ranks
    → 4 * size ≤ period
    → values (issued_all (layout num_ranks size) num_ranks) ≡ serial_values 1 (4 * size)
values-issued_all-eq-serial num_ranks size some_rank short =
    values-issued_all num_ranks size some_rank short num_ranks (omega arith)
    ∙ ap (λ s. serial_values 1 (4 * s)) (start-num_ranks num_ranks size some_rank)
