-- ===== src/RandomAccess/Layout/Division.antt =====
-- random_access.c: every entry of the table belongs to one rank, at one index, and `update_table`
-- computes both, in spite of the conversions to `int`.
use native.Mathlib.Nat.{div-add-mod, mod-lt}
use cray_tests.Prelude.{
  ℕ, zero, suc, ◌+◌, ◌-◌, ◌*◌, ◌/◌, ◌%◌, ◌^◌, ◌<◌, ◌≤◌, ◌≡◌, refl, arith, dec_lt,
}
use cray_tests.RandomAccess.Layout.{
  Layout, layout, local_table_size, global_start_my_proc, remote_pe, global_start_at_pe, index,
  to_int, int_to_u64,
}

-- What the code assumes of the sizes: ranks are `int`s, and a local index is one too.
pub record Fits (num_ranks size : ℕ) : Type 0 where
  pub some_rank : 0 < num_ranks
  pub ranks_int : num_ranks < 2 ^ 31
  pub size_u64 : size ≤ 2 ^ 63
  pub local_int : size / num_ranks < 2 ^ 31

-- The `int` arithmetic loses nothing when the index fits an `int`.
wrap_index :
    (offset start : ℕ)
    → start ≤ offset
    → offset < start + 2 ^ 31
    → offset < 2 ^ 63
    → to_int ((offset + 2 ^ 64 - int_to_u64 (to_int start)) % 2 ^ 64) ≡ offset - start
wrap_index offset start h k b = ground arith

div_bounds : (d x : ℕ) → 0 < d → (d * (x / d) ≤ x) × (x < d * (x / d) + d)
div_bounds d x h = omega (arith, div-add-mod x d, mod-lt x {m = d} h)

div_lt_of_lt_mul : (d x y : ℕ) → 0 < d → x < d * y → x / d < y
div_lt_of_lt_mul d x y h k = elim (dec_lt (x / d) y) [
  | yes ok ↦ ok
  | no far ↦ absurd (grind (arith, div_bounds d x h))
]

pub mul_mono : (q a b : ℕ) → a ≤ b → q * a ≤ q * b
mul_mono q a b h = grind arith

-- Past the top entries the smaller ranks are not empty, and the quotient names one of them.
q_pos_of : (q r n x : ℕ) → (q + 1) * r ≤ x → x < q * n + r → 0 < q
q_pos_of zero r n x h k = absurd (omega arith)
q_pos_of (suc q) r n x h k = omega arith

le_quotient : (q r p x : ℕ) → (q + 1) * r ≤ x → x - r < q * p + q → r ≤ p
le_quotient q r p x h k = elim (dec_lt p r) [
  | yes below ↦ absurd (omega (arith, mul_mono q (p + 1) r (omega arith)))
  | no ok ↦ omega arith
]

quotient_lt : (q r n p x : ℕ) → (q + 1) * r ≤ x → x < q * n + r → q * p ≤ x - r → p < n
quotient_lt q r n p x h k b = elim (dec_lt p n) [
  | yes ok ↦ ok
  | no far ↦ absurd (omega (arith, mul_mono q n p (omega arith)))
]

module _ {num_ranks size : ℕ} (fits : Fits num_ranks size) where
  abbrev l : Layout
  l = layout num_ranks size

  abbrev q : ℕ
  q = size / num_ranks

  abbrev r : ℕ
  r = size - size / num_ranks * num_ranks

  shape : (q * num_ranks + r ≡ size) × (r < num_ranks)
  shape = omega (arith, div-add-mod size num_ranks, mod-lt size {m = num_ranks} fits.some_rank)

  -- Where an offset lies.
  record Place (offset : ℕ) : Type 0 where
    pe : remote_pe l offset < num_ranks
    below : index l offset < local_table_size l (remote_pe l offset)
    whole : global_start_my_proc l (remote_pe l offset) + index l offset ≡ offset

  module _ (offset : ℕ) (inside : offset < size) where
    -- The rank by the first formula, for the ranks with one entry more.
    abbrev pe_top : ℕ
    pe_top = offset / (q + 1)

    pe_top_lem : offset < (q + 1) * r → (pe_top < r) × (remote_pe l offset ≡ pe_top)
    unfolding layout remote_pe
    pe_top_lem top =
        let small : pe_top < r = div_lt_of_lt_mul (q + 1) offset r (omega arith) top in
        (small, ground (arith, shape, fits.ranks_int))

    start_top : offset < (q + 1) * r → global_start_at_pe l offset ≡ to_int ((q + 1) * pe_top)
    unfolding layout global_start_at_pe
    start_top top = let (small, pe) = pe_top_lem top in ground (arith, shape, fits.ranks_int)

    index_top : offset < (q + 1) * r → index l offset ≡ offset - (q + 1) * pe_top
    unfolding index
    index_top top = rw (start_top top) (
        wrap_index offset ((q + 1) * pe_top) (omega (arith, div_bounds (q + 1) offset))
          (omega (arith, div_bounds (q + 1) offset, fits.local_int)) (omega (arith, fits.size_u64)))

    Place-top : offset < (q + 1) * r → Place offset
    unfolding layout local_table_size global_start_my_proc
    Place-top top =
        let (small, e) = pe_top_lem top in
        record {
          pe = omega (arith, shape, e);
          below = ground (arith, index_top top, div_bounds (q + 1) offset);
          whole = ground (arith, index_top top, div_bounds (q + 1) offset);
        }

    -- The rank by the second formula; `q` is not 0 here, so the division is one.
    abbrev pe_rest : ℕ
    pe_rest = (offset - r) / q

    q_pos : (q + 1) * r ≤ offset → 0 < q
    q_pos rest = q_pos_of q r num_ranks offset rest (omega (arith, shape))

    bounds_rest : (q + 1) * r ≤ offset → (q * pe_rest ≤ offset - r) × (offset - r < q * pe_rest + q)
    bounds_rest rest = div_bounds q (offset - r) (q_pos rest)

    pe_rest_lem :
        (q + 1) * r ≤ offset
        → (r ≤ pe_rest) × (pe_rest < num_ranks) × (remote_pe l offset ≡ pe_rest)
    unfolding layout remote_pe
    pe_rest_lem rest =
        let high : r ≤ pe_rest = le_quotient q r pe_rest offset rest (bounds_rest rest).1 in
        let small : pe_rest < num_ranks =
          quotient_lt q r num_ranks pe_rest offset rest (omega (arith, shape))
            (bounds_rest rest).0 in
        (high, small, ground (arith, fits.ranks_int))

    start_rest : (q + 1) * r ≤ offset → global_start_at_pe l offset ≡ to_int (q * pe_rest + r)
    unfolding layout global_start_at_pe
    start_rest rest = let (high, small, pe) = pe_rest_lem rest in ground (arith, fits.ranks_int)

    index_rest : (q + 1) * r ≤ offset → index l offset ≡ offset - (q * pe_rest + r)
    unfolding index
    index_rest rest = rw (start_rest rest) (
        wrap_index offset (q * pe_rest + r) (omega (arith, bounds_rest rest))
          (omega (arith, bounds_rest rest, fits.local_int)) (omega (arith, fits.size_u64)))

    Place-rest : (q + 1) * r ≤ offset → Place offset
    unfolding layout local_table_size global_start_my_proc
    Place-rest rest =
        let (high, small, e) = pe_rest_lem rest in
        record {
          pe = omega (arith, e);
          below = ground (arith, index_rest rest, bounds_rest rest);
          whole = ground (arith, index_rest rest, bounds_rest rest);
        }

-- For every offset below the table's size `update_table` computes a rank that exists and an index
-- inside that rank's part of the table, and the part's first offset plus the index is the offset.
pub remote_pe-index :
    {num_ranks size : ℕ}
    → Fits num_ranks size
    → (offset : ℕ) → offset < size
    → let l = layout num_ranks size in
      (remote_pe l offset < num_ranks)
      × (index l offset < local_table_size l (remote_pe l offset))
      × (global_start_my_proc l (remote_pe l offset) + index l offset ≡ offset)
remote_pe-index {num_ranks} {size} fits offset inside =
    elim (dec_lt offset ((size / num_ranks + 1) * (size - size / num_ranks * num_ranks))) [
      | yes top ↦ let p = Place-top fits offset inside top in (p.pe, p.below, p.whole)
      | no rest ↦ let p = Place-rest fits offset inside (omega arith) in (p.pe, p.below, p.whole)
    ]

pub index-lt :
    {num_ranks size : ℕ}
    → Fits num_ranks size
    → (offset : ℕ) → offset < size
    → index (layout num_ranks size) offset < 2 ^ 31
unfolding local_table_size layout
index-lt fits offset h =
    let (_, below, _) = remote_pe-index fits offset h in ground (arith, fits.local_int)

pub table_size-layout : (num_ranks size : ℕ) → (layout num_ranks size).table_size ≡ size
unfolding layout
table_size-layout num_ranks size = refl
