-- ===== src/RandomAccess/Table/Refine.antt =====
-- random_access.c: the tables of the ranks, with `lf_atomic_xor`, implement one table with the
-- plain RandomAccess loop `T[ran & (size - 1)] ^= ran`.
use native.Mathlib.Nat.{mod-lt, one-le-pow}
use cray_tests.Prelude.{
  ℕ, zero, suc, ◌-◌, ◌%◌, ◌^◌, ◌<◌, bit_and, bit_xor, ◌&&◌, ◌==◌, if◌then◌else◌, ◌≡◌, refl, ap, ◌∙◌,
  arith,
}
use cray_tests.Bits.{bit_and_mask}
use cray_tests.RandomAccess.Stream.{next_ran}
use cray_tests.RandomAccess.Layout.{Layout, layout, remote_pe, index}
use cray_tests.RandomAccess.Layout.Division.{Fits, remote_pe-index, index-lt, table_size-layout}
use cray_tests.RandomAccess.Table.{
  Tables, Memory, Update, updates, rem_addr, entry_at, lf_atomic_xor, run,
}

-- The specification: one table, and the loop over it.
pub serial_update : ℕ → (ℕ → ℕ) → ℕ → ℕ → ℕ
serial_update size table ran offset =
    if offset == ran % size then bit_xor (table offset) ran else table offset

pub serial_loop : ℕ → ℕ → ℕ → (ℕ → ℕ) → ℕ → ℕ
unfolding serial_update
serial_loop size zero ran table = table
serial_loop size (suc n) ran table =
    let ran' = next_ran ran in serial_loop size n ran' (serial_update size table ran')

-- The entry of the distributed tables that stands for an offset.
abbrev pub at_offset : Layout → Memory → ℕ → ℕ
at_offset l mem offset = mem (remote_pe l offset) (index l offset)

-- The address that `lf_atomic_xor` computes is that of the same entry in the owner's table.
entry_at-rem_addr :
    (tables : Tables) (u : Update)
    → ((rank : ℕ) → tables rank < 2 ^ 64)
    → u.entry < 2 ^ 61
    → entry_at tables u.pe (rem_addr tables u) ≡ u.entry
unfolding rem_addr
entry_at-rem_addr tables u b h = omega (arith, b u.caller, b u.pe)

module _ {num_ranks : ℕ} (k : ℕ) (tables : Tables) (fits : Fits num_ranks (2 ^ k))
    (address : (rank : ℕ) → tables rank < 2 ^ 64) where
  abbrev l : Layout
  l = layout num_ranks (2 ^ k)

  -- The update that one value of the stream makes.
  abbrev update_for : ℕ → ℕ → Update
  update_for caller ran =
      let offset = bit_and ran (l.table_size - 1) in
      record { caller = caller; pe = remote_pe l offset; entry = index l offset; val = ran }

  same_offset :
      (a b : ℕ)
      → a < 2 ^ k
      → b < 2 ^ k
      → remote_pe l a ≡ remote_pe l b
      → index l a ≡ index l b
      → a ≡ b
  same_offset a b ha hb p i =
      let (_, _, wa) = remote_pe-index fits a ha in
      let (_, _, wb) = remote_pe-index fits b hb in ground arith

  -- The update goes to the entry of the value's offset, and to no other.
  hits :
      (caller ran offset : ℕ)
      → offset < 2 ^ k
      → let u = update_for caller ran in
        ((u.pe == remote_pe l offset && entry_at tables u.pe (rem_addr tables u) == index l offset)
          ≡ (offset == ran % 2 ^ k))
  hits caller ran offset h =
      let place : bit_and ran (l.table_size - 1) ≡ ran % 2 ^ k =
        ap (λ t. bit_and ran (t - 1)) (table_size-layout num_ranks (2 ^ k)) ∙ bit_and_mask k ran in
      let u = update_for caller ran in
      let inside : bit_and ran (l.table_size - 1) < 2 ^ k =
        omega (arith, place, mod-lt ran {m = 2 ^ k} (one-le-pow k 2 (omega arith))) in
      let reached = entry_at-rem_addr tables u address (omega (arith, index-lt fits _ inside)) in
      ground (arith, same_offset (bit_and ran (l.table_size - 1)) offset inside h)

  step :
      (mem : Memory) (caller ran offset : ℕ)
      → offset < 2 ^ k
      → at_offset l (lf_atomic_xor tables mem (update_for caller ran)) offset
        ≡ serial_update (2 ^ k) (at_offset l mem) ran offset
  unfolding lf_atomic_xor serial_update
  step mem caller ran offset h =
      ap (λ c. if c then bit_xor (at_offset l mem offset) ran else at_offset l mem offset)
        (hits caller ran offset h)

  loop-eq-serial :
      (caller n ran : ℕ) (mem : Memory) (table : ℕ → ℕ)
      → ((offset : ℕ) → offset < 2 ^ k → at_offset l mem offset ≡ table offset)
      → (offset : ℕ) → offset < 2 ^ k
      → at_offset l (run tables (updates l caller n ran) mem) offset
        ≡ serial_loop (2 ^ k) n ran table offset
  unfolding run updates serial_loop
  loop-eq-serial caller zero ran mem table same offset h = same offset h
  loop-eq-serial caller (suc n) ran mem table same o b =
      loop-eq-serial caller n (next_ran ran) _ _
        (λ offset h.
          step mem caller (next_ran ran) offset h
          ∙ unfold serial_update in
            ap (λ t. if offset == next_ran ran % 2 ^ k then bit_xor t (next_ran ran) else t)
              (same offset h))
        o b

-- For a table of 2 ^ k entries over ranks whose sizes fit the types, and tables at 64-bit
-- addresses, one rank's loop of `update_table` changes the distributed tables as the plain loop
-- changes one table: entry by entry, the rank and index of each offset hold what it holds there.
pub update_table-refines :
    (num_ranks k : ℕ) (tables : Tables)
    → Fits num_ranks (2 ^ k)
    → ((rank : ℕ) → tables rank < 2 ^ 64)
    → (caller n ran : ℕ) (mem : Memory) (offset : ℕ) → offset < 2 ^ k
    → let l = layout num_ranks (2 ^ k) in
      at_offset l (run tables (updates l caller n ran) mem) offset
      ≡ serial_loop (2 ^ k) n ran (at_offset l mem) offset
update_table-refines num_ranks k tables fits address caller n ran mem offset h =
    loop-eq-serial k tables fits address caller n ran mem _ (λ o b. refl) offset h
