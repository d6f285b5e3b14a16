-- ===== src/Tbarrier/Safety.antt =====
-- ct_tbarrier.h: what the barrier promises, in every reachable state.
use cray_tests.Prelude.{ℕ, ◌+◌, ◌<◌, ◌≤◌, ◌≡◌, ◌≢◌, ◌⊎◌, inl, inr, arith, dec_lt}
use cray_tests.Tbarrier.{get, idle, spin, System, Reach}
use cray_tests.Tbarrier.Invariant.{arrived, resetting, toggling, Inv, Reach-Inv}
use cray_tests.Tbarrier.Counting.{sum_to, sum_to-le, sum_to_positive, sum_to_short}

-- No thread has finished more calls of `ct_tbarrier` than any other has begun: a call returns
-- only after every thread has entered the call of the same number.
pub left-le-entered :
    {n : ℕ} {s : System}
    → Reach n s
    → (i j : ℕ) → i < n
    → j < n
    → (s.threads i).local.left ≤ (s.threads j).local.entered
left-le-entered r i j bi bj =
    let (round, inv) = Reach-Inv (omega arith) r in
    let mi = inv.members i bi in let mj = inv.members j bj in ground arith

-- The counters and the signals stay in range: a counter is at most the number of threads, and a
-- signal is 0 or 1.
pub counter-le :
    {n : ℕ} {s : System}
    → 0 < n
    → Reach n s
    → (s.mem.counter.at0 ≤ n)
      × (s.mem.counter.at1 ≤ n)
      × (s.mem.signal.at0 ≤ 1)
      × (s.mem.signal.at1 ≤ 1)
counter-le {n} {s} pos r =
    let (round, inv) = Reach-Inv pos r in
    let c = inv.counts in
    let few : sum_to (arrived round) n s.threads ≤ n =
      sum_to-le (arrived round) (λ t. ground arith) n s.threads in
    ground arith

-- A thread can go on at once: it is not in the loop, or its next load ends the loop.
abbrev pub CanProgress : System → ℕ → Type 0
CanProgress s i =
    let t = s.threads i in
    (t.pc ≢ spin) ⊎ (get s.mem.signal t.local.slot ≢ get t.local.phase t.local.slot)

-- The thread that goes on: one that has left the round behind, or the last that joined it.
find_progress :
    {n round : ℕ} {s : System}
    → Inv n round s.mem s.threads
    → ((i : ℕ) → i < n → (s.threads i).pc ≢ idle)
    → (sum_to (arrived round) n s.threads < n)
      ⊎ (sum_to resetting n s.threads + sum_to toggling n s.threads ≡ 1)
    → (i : ℕ) × (i < n) × CanProgress s i
find_progress {n} {round} {s} inv inside (inl short) =
    let (i, b, zero) = sum_to_short (arrived round) n s.threads short in
    let c = inv.counts in let m = inv.members i b in let busy = inside i b in (i, b, ground arith)
find_progress {n} {round} {s} inv inside (inr last) =
    elim (dec_lt 0 (sum_to resetting n s.threads)) [
      | yes some ↦
          let (i, b, one) = sum_to_positive resetting n s.threads some in (i, b, inl (ground arith))
      | no none ↦
          let (i, b, one) = sum_to_positive toggling n s.threads (omega arith) in
          (i, b, inl (ground arith))
    ]

-- No deadlock: when every thread is inside a call, some thread can go on at once.
pub no_deadlock :
    {n : ℕ} {s : System}
    → 0 < n
    → Reach n s
    → ((i : ℕ) → i < n → (s.threads i).pc ≢ idle)
    → (i : ℕ) × (i < n) × CanProgress s i
no_deadlock pos r inside =
    let (round, inv) = Reach-Inv pos r in find_progress inv inside inv.counts.last_joins

-- No thread is left behind: when some thread has finished a call that another one still waits in,
-- the next load of the one that waits ends its loop.
pub released :
    {n : ℕ} {s : System}
    → Reach n s
    → (i j : ℕ) → i < n
    → j < n
    → (s.threads i).pc ≡ spin
    → (s.threads i).local.left < (s.threads j).local.left
    → get s.mem.signal (s.threads i).local.slot
      ≢ get (s.threads i).local.phase (s.threads i).local.slot
released r i j bi bj waits behind =
    let (round, inv) = Reach-Inv (omega arith) r in
    let c = inv.counts in let mi = inv.members i bi in let mj = inv.members j bj in ground arith
