-- ===== src/Fabric/Align.antt =====
-- performance/multi-node: the start of a buffer at a multiple of the page size.
use native.Mathlib.Nat.{div-mul-le_self, lt-div-mul-add}
use cray_tests.Prelude.{ℕ, ◌+◌, ◌-◌, ◌*◌, ◌/◌, ◌<◌, ◌≤◌, ◌≡◌, refl, arith}

pub round_up :
    (original align_size : ℕ)
    → 0 < align_size
    → ((k : ℕ) × ((original + (align_size - 1)) / align_size * align_size ≡ k * align_size))
      × (original ≤ (original + (align_size - 1)) / align_size * align_size)
      × ((original + (align_size - 1)) / align_size * align_size < original + align_size)
round_up original align_size h = (
  ((original + (align_size - 1)) / align_size, refl),
  omega (arith, lt-div-mul-add {a = original + (align_size - 1)} {b = align_size} h),
  omega (arith, div-mul-le_self (original + (align_size - 1)) align_size),
)
