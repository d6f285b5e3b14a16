-- ===== src/RandomAccess/Table/Verify.antt =====
-- random_access.c: the verification phase finds no error, whatever the order of the updates.
use mathlib.Core.Path.{fun_ext}
use mathlib.Core.List.{Perm}
use mathlib.Core.List.Perm
use cray_tests.Prelude.{ℕ, zero, suc, bit_xor, List, ◌≡◌, refl, ap, ◌∙◌, arith, false}
use cray_tests.Bits.{bit_xor_self, bit_xor-zero, bit_xor_assoc}
use cray_tests.RandomAccess.Layout.{Layout, local_table_size}
use cray_tests.RandomAccess.Table.{
  Tables, Memory, Update, run, issued_all, initial, num_errors, global_num_errors, failure,
}
use cray_tests.RandomAccess.Table.Total.{total, run-eq-total, total-perm}

-- A second run of the same updates undoes the first.
run-run :
    (tables : Tables) (first second : List Update) (mem : Memory)
    → Perm second first
    → run tables second (run tables first mem) ≡ mem
run-run tables first second mem p = fun_ext λ pe. fun_ext λ i.
    run-eq-total tables pe i second (run tables first mem)
    ∙ ap (λ t. bit_xor t (total tables pe i second)) (run-eq-total tables pe i first mem)
    ∙ ap (bit_xor (bit_xor (mem pe i) (total tables pe i first))) (total-perm tables pe i p)
    ∙ bit_xor_assoc (mem pe i) _ _
    ∙ ap (bit_xor (mem pe i)) (bit_xor_self _)
    ∙ bit_xor-zero _

num_errors-initial : (l : Layout) (rank n : ℕ) → num_errors l (initial l) rank n ≡ 0
unfolding num_errors initial
num_errors-initial l rank zero = refl
num_errors-initial l rank (suc n) = ground (arith, num_errors-initial l rank n)

global_num_errors-initial : (l : Layout) (n : ℕ) → global_num_errors l (initial l) n ≡ 0
unfolding global_num_errors
global_num_errors-initial l zero = refl
global_num_errors-initial l (suc n) =
    omega (arith, global_num_errors-initial l n, num_errors-initial l n (local_table_size l n))

-- If the first and the second call of `update_table` on all ranks each perform every update that
-- the ranks issue, in any order, then the tables end as they began, the errors counted over all
-- ranks are 0, and the benchmark is not marked as failed.
pub verification_passes :
    (tables : Tables) (l : Layout) (first second : List Update)
    → Perm first (issued_all l l.num_ranks)
    → Perm second (issued_all l l.num_ranks)
    → let mem = run tables second (run tables first (initial l)) in
      (mem ≡ initial l) × (global_num_errors l mem l.num_ranks ≡ 0) × (failure l mem ≡ false)
unfolding failure
verification_passes tables l first second p q =
    let back = run-run tables first second (initial l) (Perm.trans q (Perm.symm p)) in
    (
      back,
      rw back (global_num_errors-initial l l.num_ranks),
      rw back (ground (arith, global_num_errors-initial l l.num_ranks)),
    )
