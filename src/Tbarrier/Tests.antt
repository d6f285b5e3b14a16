-- ===== src/Tbarrier/Tests.antt =====
-- ct_tbarrier.h: runs of a few threads in a given order, and the theorems at states they reach.
use cray_tests.Prelude.{
  ℕ, zero, suc, ◌+◌, ◌<◌, ◌≤◌, ◌≡◌, ◌≢◌, refl, arith, List, [], ◌∷◌, dec_lt, ℕ_discrete,
}
use mathlib.Core.List.{foldl}
use mathlib.Core.Logic.{dite}
use cray_tests.Tbarrier.{
  get, Shared, Local, Pc, idle, reset, toggle, spin, leaving, Move, join_last, join, clear, flip,
  again, go, leave, System, pick, Reach, start, later,
}
use cray_tests.Tbarrier.Safety.{left-le-entered, CanProgress, no_deadlock, released}

next_move :
    (n : ℕ) (m : Shared) (l : Local) (p : Pc)
    → (m' : Shared) × (l' : Local) × (p' : Pc) × Move n m l p m' l' p'
unfolding ℕ_discrete
next_move n m l idle =
    dite (ℕ_discrete (get m.counter l.slot + 1) n) (λ e. (_, _, _, join_last e))
      (λ e. (_, _, _, join e))
next_move n m l reset = (_, _, _, clear)
next_move n m l toggle = (_, _, _, flip)
next_move n m l spin =
    dite (ℕ_discrete (get m.signal l.slot) (get l.phase l.slot)) (λ e. (_, _, _, again e))
      (λ e. (_, _, _, go e))
next_move n m l leaving = (_, _, _, leave)

record Run (n : ℕ) : Type 0 where
  last : System
  reach : Reach n last

turn : {n : ℕ} → Run n → ℕ → Run n
unfolding next_move dec_lt
turn {n} r i = elim (dec_lt i n) [
  | yes b ↦
      let t = r.last.threads i in
      record { last = _; reach = later r.reach (pick i b (next_move n r.last.mem t.local t.pc).3) }
  | no _ ↦ r
]

schedule : (n : ℕ) → List ℕ → Run n
unfolding turn
schedule n = foldl turn (record { last = _; reach = start })

-- Thread 1 waits; thread 0, the last to join, opens the barrier, returns and waits in the next one.
abbrev one_behind : Run 2
one_behind = schedule 2 (1 ∷ 0 ∷ 0 ∷ 0 ∷ 0 ∷ 0 ∷ [])

one_behind_state :
    ((one_behind.last.threads 0).pc ≡ spin)
    × ((one_behind.last.threads 1).pc ≡ spin)
    × ((one_behind.last.threads 0).local.left ≡ 1)
unfolding schedule
one_behind_state = (refl, refl, refl)

left-le-entered_example :
    (one_behind.last.threads 0).local.left ≤ (one_behind.last.threads 1).local.entered
left-le-entered_example = left-le-entered one_behind.reach 0 1 (omega arith) (omega arith)

one_behind_inside : (i : ℕ) → i < 2 → (one_behind.last.threads i).pc ≢ idle
unfolding schedule
one_behind_inside zero b e = cc
one_behind_inside (suc zero) b e = cc
one_behind_inside (suc (suc i)) b e = absurd (omega arith)

no_deadlock_example : (i : ℕ) × (i < 2) × CanProgress one_behind.last i
no_deadlock_example = no_deadlock (omega arith) one_behind.reach one_behind_inside

behind : (one_behind.last.threads 1).local.left < (one_behind.last.threads 0).local.left
unfolding schedule
behind = omega arith

released_example :
    let t = one_behind.last.threads 1 in
    get one_behind.last.mem.signal t.local.slot ≢ get t.local.phase t.local.slot
unfolding schedule
released_example = released one_behind.reach 1 0 (omega arith) (omega arith) refl behind
