-- ===== src/Clock/Race.antt =====
-- include/ct_utils.h: two threads that call `ct_start_clock` before the mutex is set up, as those of
-- lock_tests.c do.
use cray_tests.Prelude.{ℕ, ◌≡◌, ◌<◌, refl, false, arith, ℕ_discrete}
use cray_tests.Clock.{Mutex, Clock, Pc, Move, System, Reach, pick, here, later, pthread_mutex_init}

-- When two or more threads begin their calls of `ct_start_clock` before the mutex is set up, there is
-- a run in which two of them set up the same mutex, which POSIX leaves undefined.
pub ct_start_clock-sets_up_twice :
    {n : ℕ}
    → 1 < n
    → (c : Clock) → c.is_clock_lock_init ≡ false
    → c.clock_lock ≡ Mutex.destroyed
    → (t : System) × Reach n (record { clock = c; threads = λ _. Pc.test }) t
      × (t.clock.clock_lock ≡ Mutex.undefined)
unfolding pthread_mutex_init ℕ_discrete
ct_start_clock-sets_up_twice {n} more c unset none_yet =
    let some_thread : 0 < n = omega arith in
    let first = later here (pick 0 some_thread (Move.is_not_set_up unset)) in
    let second = later first (pick 1 more (Move.is_not_set_up unset)) in
    let third = later second (pick 0 some_thread Move.sets_up) in
    (_, later third (pick 1 more Move.sets_up), rw none_yet refl)
