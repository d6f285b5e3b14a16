-- ===== src/RandomAccess/Program.antt =====
-- performance/multi-node/random_access.c: `random_access` as one computation of all ranks, with
-- include/ct_utils.h: `CT_ALLREDUCE_FUNC`. What `malloc` returns is given by rank; registration and
-- times are left out.
use cray_tests.Prelude.{
  dec_lt, ℕ, zero, suc, ◌+◌, ◌%◌, ◌^◌, ◌<◌, ◌≤◌, ◌≡◌, refl, ap, ◌∙◌, arith, Bool, true, false, ◌&&◌,
  Option, some, none, List, ltb, if◌then◌else◌,
}
use cray_tests.RandomAccess.Layout.{Layout, layout, choose_table_size}
use cray_tests.RandomAccess.Table.{Tables, Memory, Update, run, initial, global_num_errors, failure}

-- The sum of `ct_allreduce_int_sum` over the values of the ranks before `n`, as an `int`; the first
-- value starts it.
unfoldable pub allreduce_int_sum : (ℕ → ℕ) → ℕ → ℕ
allreduce_int_sum vals zero = 0
allreduce_int_sum vals (suc zero) = vals 0
allreduce_int_sum vals (suc (suc n)) = (allreduce_int_sum vals (suc n) + vals (suc n)) % 2 ^ 32

-- `send_abort` of a rank: the table and the locks must both be there.
abbrev pub send_abort : Bool → Bool → ℕ
send_abort table_ok locks_ok = if table_ok && locks_ok then 0 else 1

-- The division of the table that the ranks compute.
abbrev pub chosen : ℕ → ℕ → Layout
chosen total_mem_opt num_ranks =
    layout num_ranks (choose_table_size total_mem_opt num_ranks).table_size

-- `none` when all ranks leave through `failed_table`; else the tables after the verification phase,
-- the errors, and `failure` of the head rank. The updates of the two calls of `update_table` take
-- place in the orders `first` and `second`.
unfoldable pub random_access :
    ℕ
    → ℕ
    → (ℕ → Bool)
    → (ℕ → Bool)
    → Tables
    → List Update
    → List Update
    → Option (Memory × ℕ × Bool)
unfolding allreduce_int_sum
random_access total_mem_opt num_ranks table_ok locks_ok tables first second =
    let l = chosen total_mem_opt num_ranks in
    let recv_abort =
      allreduce_int_sum (λ rank. send_abort (table_ok rank) (locks_ok rank)) num_ranks in
    let updated = run tables first (initial l) in
    let verified = run tables second updated in
    if ltb 0 recv_abort
    then none
    else some (verified, global_num_errors l verified num_ranks, failure l verified)

-- The sum of zeros and ones is the number of ones, while the number of ranks fits.
unfoldable pub failed_ranks : (ℕ → ℕ) → ℕ → ℕ
failed_ranks vals zero = 0
failed_ranks vals (suc n) = failed_ranks vals n + vals n

failed_ranks-le : (vals : ℕ → ℕ) (n : ℕ) → ((rank : ℕ) → vals rank ≤ 1) → failed_ranks vals n ≤ n
unfolding failed_ranks
failed_ranks-le vals zero h = omega arith
failed_ranks-le vals (suc n) h = omega (arith, failed_ranks-le vals n h, h n)

allreduce_int_sum-failed_ranks :
    (vals : ℕ → ℕ) (n : ℕ)
    → ((rank : ℕ) → vals rank ≤ 1)
    → n < 2 ^ 31
    → allreduce_int_sum vals n ≡ failed_ranks vals n
unfolding allreduce_int_sum failed_ranks
allreduce_int_sum-failed_ranks vals zero h lt = refl
allreduce_int_sum-failed_ranks vals (suc zero) h lt = omega arith
allreduce_int_sum-failed_ranks vals (suc (suc n)) h lt = omega (
  arith,
  allreduce_int_sum-failed_ranks vals (suc n) h (omega arith),
  failed_ranks-le vals (suc n) h,
  h (suc n),
)

one_failed : (vals : ℕ → ℕ) (n rank : ℕ) → rank < n → vals rank ≡ 1 → 0 < failed_ranks vals n
unfolding failed_ranks
one_failed vals zero rank lt h = absurd (omega arith)
one_failed vals (suc n) rank lt h = elim (dec_lt rank n) [
  | yes low ↦ omega (arith, one_failed vals n rank low h)
  | no top ↦ let here : vals n ≡ 1 = ap vals (omega arith) ∙ h in omega arith
]

send_abort-le : (a b : Bool) → send_abort a b ≤ 1
send_abort-le true true = omega arith
send_abort-le true false = omega arith
send_abort-le false b = omega arith

-- With the memory of one rank missing, no rank goes on.
pub random_access-aborts :
    (total_mem_opt num_ranks rank : ℕ) (table_ok locks_ok : ℕ → Bool) (tables : Tables)
    (first second : List Update)
    → num_ranks < 2 ^ 31
    → rank < num_ranks
    → (table_ok rank && locks_ok rank) ≡ false
    → random_access total_mem_opt num_ranks table_ok locks_ok tables first second ≡ none
unfolding random_access
random_access-aborts total_mem_opt num_ranks rank table_ok locks_ok tables first second lt low
      missing =
    let vals : ℕ → ℕ = λ rank'. send_abort (table_ok rank') (locks_ok rank') in
    let failed : 0 < failed_ranks vals num_ranks =
      one_failed vals num_ranks rank low (rw missing refl) in
    let sum =
      allreduce_int_sum-failed_ranks vals num_ranks
        (λ rank'. send_abort-le (table_ok rank') (locks_ok rank')) lt in
    let stopped : ltb 0 (allreduce_int_sum vals num_ranks) ≡ true = ground arith in rw stopped refl
