-- ===== src/Tbarrier/Invariant.antt =====
-- ct_tbarrier.h: the invariant of the barrier holds at the start and is kept by every access.
mod Defs
mod Moves
pub use Defs.{arrived, resetting, toggling, Standing, Member, Counts, Inv}
use Moves.{pick-Inv}
use cray_tests.Prelude.{ℕ, ◌<◌, ◌≤◌, arith, inl, inr, refl}
use cray_tests.Tbarrier.{System, Step, pick, Reach, start, later, init}
use cray_tests.Tbarrier.Counting.{sum_to-zero}

Inv-init : (n : ℕ) → 0 < n → Inv n 0 init.mem init.threads
Inv-init n pos = record {
  counts = ground (
    arith,
    sum_to-zero (arrived 0) n init.threads (λ i b. refl),
    sum_to-zero resetting n init.threads (λ i b. refl),
    sum_to-zero toggling n init.threads (λ i b. refl),
  );
  members = λ j b. ground arith;
}

Step-Inv :
    {n round : ℕ} {s t : System}
    → Step n s t
    → Inv n round s.mem s.threads
    → (r : ℕ) × (round ≤ r) × Inv n r t.mem t.threads
Step-Inv (pick i lt mv) inv = pick-Inv inv i lt mv

-- In every reachable state the invariant holds for some number of rounds.
pub Reach-Inv : {n : ℕ} {s : System} → 0 < n → Reach n s → (round : ℕ) × Inv n round s.mem s.threads
Reach-Inv {n} pos start = (0, Inv-init n pos)
Reach-Inv pos (later r st) =
    let (_, inv) = Reach-Inv pos r in let (round, _, inv') = Step-Inv st inv in (round, inv')
