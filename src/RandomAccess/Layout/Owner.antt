-- ===== src/RandomAccess/Layout/Owner.antt =====
-- random_access.c: the parts of the ranks follow one another without gap, so that each entry of
-- each rank is reached from exactly one offset.
use native.Mathlib.Nat.{div-add-mod, mod-lt}
use cray_tests.Prelude.{ℕ, suc, ◌+◌, ◌/◌, ◌<◌, ◌≤◌, ◌≡◌, arith, dec_lt}
use cray_tests.RandomAccess.Layout.{
  layout, local_table_size, global_start_my_proc, remote_pe, index,
}
use cray_tests.RandomAccess.Layout.Division.{Fits, mul_mono, remote_pe-index}

module _ (num_ranks size : ℕ) where
  -- The part of a rank ends where, or before, the part of a later rank begins.
  pub end-le-start :
      (p p' : ℕ)
      → p < p'
      → let l = layout num_ranks size in
        global_start_my_proc l p + local_table_size l p ≤ global_start_my_proc l p'
  unfolding layout local_table_size global_start_my_proc
  end-le-start p p' h = ground (arith, mul_mono (size / num_ranks) (suc p) p' h)

  -- The part of the last rank ends at the end of the table.
  pub end-le-size :
      (p : ℕ)
      → p < num_ranks
      → let l = layout num_ranks size in global_start_my_proc l p + local_table_size l p ≤ size
  unfolding layout local_table_size global_start_my_proc
  end-le-size p h = ground (
    arith,
    mul_mono (size / num_ranks) (suc p) num_ranks h,
    div-add-mod size num_ranks,
    mod-lt size {m = num_ranks} (omega arith),
  )

  pub start-zero : global_start_my_proc (layout num_ranks size) 0 ≡ 0
  unfolding layout global_start_my_proc
  start-zero = ground arith

  pub start-suc :
      (p : ℕ)
      → let l = layout num_ranks size in
        global_start_my_proc l (suc p) ≡ global_start_my_proc l p + local_table_size l p
  unfolding layout local_table_size global_start_my_proc
  start-suc p = ground arith

  pub start-num_ranks :
      0 < num_ranks → global_start_my_proc (layout num_ranks size) num_ranks ≡ size
  unfolding layout global_start_my_proc
  start-num_ranks h = ground (arith, div-add-mod size num_ranks, mod-lt size {m = num_ranks} h)

  same_part :
      (p p' i i' : ℕ)
      → let l = layout num_ranks size in
        i < local_table_size l p
        → i' < local_table_size l p'
        → global_start_my_proc l p + i ≡ global_start_my_proc l p' + i'
        → p ≡ p'
  same_part p p' i i' h h' e = elim (dec_lt p p') [
    | yes before ↦ absurd (omega (arith, end-le-start p p' before))
    | no a ↦ elim (dec_lt p' p) [
      | yes after ↦ absurd (omega (arith, end-le-start p' p after))
      | no b ↦ omega arith
    ]
  ]

-- Entry `i` of a rank's part lies at an offset of the table, and from that offset `update_table`
-- computes that rank and `i`.
pub remote_pe-global_start :
    {num_ranks size : ℕ}
    → Fits num_ranks size
    → (rank i : ℕ) → rank < num_ranks
    → i < local_table_size (layout num_ranks size) rank
    → let l = layout num_ranks size in
      let offset = global_start_my_proc l rank + i in
      (offset < size) × (remote_pe l offset ≡ rank) × (index l offset ≡ i)
remote_pe-global_start {num_ranks} {size} fits rank i some_rank some_entry =
    let l = layout num_ranks size in
    let offset = global_start_my_proc l rank + i in
    let inside : offset < size = omega (arith, end-le-size num_ranks size rank some_rank) in
    let (exists, below, whole) = remote_pe-index fits offset inside in
    let owner =
      same_part num_ranks size (remote_pe l offset) rank (index l offset) i below some_entry
        whole in
    (inside, owner, ground arith)
