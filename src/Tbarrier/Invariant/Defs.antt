-- ===== src/Tbarrier/Invariant/Defs.antt =====
-- ct_tbarrier.h: what holds between the accesses of the threads. `round` is the number of times
-- that the barrier has opened.
use cray_tests.Prelude.{ℕ, ◌+◌, ◌-◌, ◌/◌, ◌%◌, ◌<◌, ◌≤◌, ◌≡◌, ◌⊎◌, ◌==◌, if◌then◌else◌}
use cray_tests.Tbarrier.{get, Shared, Local, Pc, idle, reset, toggle, spin, leaving, Thread}
use cray_tests.Tbarrier.Counting.{sum_to}

abbrev waits : ℕ → Pc → ℕ → ℕ
waits round idle left = 0
waits round leaving left = 0
waits round _ left = if left == round then 1 else 0

-- The threads that have joined the round that is open for joining.
abbrev pub arrived : ℕ → Thread → ℕ
arrived round t = waits round t.pc t.local.left

abbrev is_reset : Pc → ℕ
is_reset reset = 1
is_reset _ = 0

abbrev is_toggle : Pc → ℕ
is_toggle toggle = 1
is_toggle _ = 0

abbrev pub resetting : Thread → ℕ
resetting t = is_reset t.pc

abbrev pub toggling : Thread → ℕ
toggling t = is_toggle t.pc

abbrev pub inside : Pc → ℕ
inside idle = 0
inside _ = 1

-- The calls that a thread at a place has finished, against the rounds that are over.
abbrev pub Standing : ℕ → Pc → ℕ → Type 0
Standing round idle left = left ≡ round
Standing round reset left = left ≡ round
Standing round toggle left = left ≡ round
Standing round spin left = (left ≡ round) ⊎ (left + 1 ≡ round)
Standing round leaving left = left + 1 ≡ round

pub record Member (round : ℕ) (l : Local) (p : Pc) : Type 0 where
  pub standing : Standing round p l.left
  pub calls : l.entered ≡ l.left + inside p
  pub slot : l.slot ≡ l.left % 2
  pub phase0 : l.phase.at0 ≡ (l.left + 1) / 2 % 2
  pub phase1 : l.phase.at1 ≡ l.left / 2 % 2

abbrev pub Counted : ℕ → ℕ → ℕ → Type 0
Counted counter joined toggles = (toggles ≡ 0) × (counter ≡ joined) ⊎ (toggles ≡ 1) × (counter ≡ 0)

pub record Counts (n round : ℕ) (m : Shared) (joined resets toggles : ℕ) : Type 0 where
  pub signal0 : m.signal.at0 ≡ (round + 1) / 2 % 2
  pub signal1 : m.signal.at1 ≡ round / 2 % 2
  pub other : get m.counter (1 - round % 2) ≡ 0
  pub counted : Counted (get m.counter (round % 2)) joined toggles
  pub one_last : resets + toggles ≤ 1
  pub last_joins : (joined < n) ⊎ (resets + toggles ≡ 1)
  pub all_joined : (resets + toggles ≡ 0) ⊎ (joined ≡ n)

pub record Inv (n round : ℕ) (m : Shared) (f : ℕ → Thread) : Type 0 where
  pub counts :
      Counts n round m (sum_to (arrived round) n f) (sum_to resetting n f) (sum_to toggling n f)
  pub members : (j : ℕ) → j < n → Member round (f j).local (f j).pc
