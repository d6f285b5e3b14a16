-- ===== src/Clock/Safety.antt =====
-- include/ct_utils.h: what `ct_start_clock` and `ct_stop_clock` promise once the mutex of the clock is
-- set up.
use cray_tests.Prelude.{
  ℕ, ◌≡◌, ◌≢◌, ◌⊎◌, ◌<◌, inl, inr, refl, Bool, Bool-cases, true, false, arith, some,
}
use cray_tests.Clock.{
  Mutex, Clock, Pc, Move, System, Step, Reach, pick, ct_stop_clock, stop_with, destroy_lock,
}
use cray_tests.Clock.Invariant.{Holds, inside, IsOwned, Inv, Reach-Inv}

-- A thread before its call of `pthread_mutex_lock`, and not about to set up the mutex.
abbrev pub before : Pc → Bool
before Pc.test = true
before Pc.lock = true
before _ = false

-- The mutex is set up, and no thread has taken it or is about to set it up again.
abbrev pub IsReady : System → Type 0
IsReady s =
    (s.clock.is_clock_lock_init ≡ true)
    × (s.clock.clock_lock ≡ Mutex.free)
    × (s.clock.clock_started ≡ false)
    × ((i : ℕ) → before (s.threads i) ≡ true)

before-Holds : (m : Mutex) (started : Bool) (i : ℕ) (p : Pc) → before p ≡ true → Holds m started i p
before-Holds m started i p e = ground arith

IsReady-Inv : (n : ℕ) (s : System) → IsReady s → Inv n s
IsReady-Inv n s (is_set_up, is_free, _, early) = record {
  is_set_up = is_set_up;
  owned = inl is_free;
  threads = λ i. before-Holds _ _ i (s.threads i) (early i);
}

inside-held :
    (m : Mutex) (started : Bool) (i : ℕ) (p : Pc)
    → Holds m started i p
    → inside p ≡ true
    → m ≡ Mutex.held i
inside-held m started i p h e = ground arith

-- Two threads are never between `pthread_mutex_lock` and `pthread_mutex_unlock` at once.
pub exclusive :
    {n : ℕ} {s t : System}
    → IsReady s
    → Reach n s t
    → (i j : ℕ) → inside (t.threads i) ≡ true
    → inside (t.threads j) ≡ true
    → i ≡ j
exclusive {n} {s} {t} ready r i j in_i in_j =
    let inv = Reach-Inv (IsReady-Inv n s ready) r in
    let held_i = inside-held _ _ i (t.threads i) (inv.threads i) in_i in
    let held_j = inside-held _ _ j (t.threads j) (inv.threads j) in_j in ground arith

-- The mutex is free when every thread is through with its call.
done-free :
    {n : ℕ} (t : System)
    → IsOwned n t
    → ((i : ℕ) → i < n → t.threads i ≡ Pc.done)
    → t.clock.clock_lock ≡ Mutex.free
done-free t (inl is_free) all = is_free
done-free t (inr (k, lt, holds, in_k)) all = let at_end = all k lt in ground arith

-- When all threads, at least one, have returned from `ct_start_clock`, which they began with the mutex
-- set up, `ct_stop_clock` finds the mutex free, keeps the time at which the clock was started,
-- stores its own time and leaves the other variables as they were before any call.
pub ct_stop_clock-all_done :
    {n : ℕ} {s t : System}
    → IsReady s
    → Reach n s t
    → 0 < n
    → ((i : ℕ) → i < n → t.threads i ≡ Pc.done)
    → (now : ℕ)
    → ct_stop_clock now t.clock
      ≡ some (record {
        is_clock_lock_init = false;
        clock_lock = Mutex.destroyed;
        clock_started = false;
        start = t.clock.start;
        end = now;
      })
unfolding ct_stop_clock stop_with destroy_lock
ct_stop_clock-all_done {n} {s} {t} ready r pos all now =
    let inv = Reach-Inv (IsReady-Inv n s ready) r in
    let is_free = done-free t inv.owned all in
    let at_end = all 0 pos in
    let holds_0 : Holds t.clock.clock_lock t.clock.clock_started 0 (t.threads 0) = inv.threads 0 in
    let on : t.clock.clock_started ≡ true = ground arith in rw (is_free, on, inv.is_set_up) refl

-- A thread can go on when it is inside the call, or when the mutex is free.
can_move :
    (i : ℕ) (c : Clock) (p : Pc)
    → c.is_clock_lock_init ≡ true
    → (c.clock_lock ≡ Mutex.free) ⊎ (inside p ≡ true)
    → Holds c.clock_lock c.clock_started i p
    → p ≢ Pc.done
    → (d : Clock) × (q : Pc) × Move i c p d q
can_move i c Pc.test up e h busy = (_, _, Move.is_set_up up)
can_move i c Pc.set_up up e h busy = ground arith
can_move i c Pc.set_flag up e h busy = ground arith
can_move i c Pc.lock up (inl e) h busy = (_, _, Move.locks e)
can_move i c Pc.lock up (inr e) h busy = ground arith
can_move i c Pc.check up e h busy = elim (Bool-cases c.clock_started) [
  | inl on ↦ (_, _, Move.is_started on)
  | inr off ↦ (_, _, Move.is_first off)
]
can_move i c Pc.read_clock up e h busy = (_, _, Move.reads 0)
can_move i c Pc.mark up e h busy = (_, _, Move.marks)
can_move i c Pc.unlock up e (holds, _) busy = (_, _, Move.unlocks holds)
can_move i c Pc.done up e h busy = elim (busy refl) [ ]

-- No deadlock: while some thread is not through with its call, some thread can go on.
pub start_clock-progress :
    {n : ℕ} {s t : System}
    → IsReady s
    → Reach n s t
    → (i : ℕ) → i < n
    → t.threads i ≢ Pc.done
    → (u : System) × Step n t u
start_clock-progress {n} {s} {t} ready r i lt busy =
    let inv = Reach-Inv (IsReady-Inv n s ready) r in
    elim inv.owned [
      | inl is_free ↦
          let (d, q, mv) =
            can_move i t.clock (t.threads i) inv.is_set_up (inl is_free) (inv.threads i) busy in
          (_, pick i lt mv)
      | inr (k, below, holds, in_k) ↦
          let (d, q, mv) =
            can_move k t.clock (t.threads k) inv.is_set_up (inr in_k) (inv.threads k)
              (λ e. let x = in_k in ground arith) in
          (_, pick k below mv)
    ]
