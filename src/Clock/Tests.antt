-- ===== src/Clock/Tests.antt =====
-- include/ct_utils.h: runs of two threads that start the clock, and the theorems at them.
use cray_tests.Prelude.{ℕ, zero, suc, ◌≡◌, ◌<◌, refl, false, some, arith, ℕ_discrete}
use cray_tests.Clock.{
  Mutex, Clock, Pc, Move, System, Reach, here, later, pick, init, pthread_mutex_init, ct_stop_clock,
}
use cray_tests.Clock.Safety.{IsReady, ct_stop_clock-all_done}
use cray_tests.Clock.Race.{ct_start_clock-sets_up_twice}

abbrev After : System → Type 0
After s = (t : System) × Reach 2 s t

-- One more access by a thread.
abbrev then_by :
    (i : ℕ)
    → i < 2
    → {s : System} (a : After s) {c : Clock} {q : Pc} → Move i a.0.clock (a.0.threads i) c q
    → After s
then_by i lt a mv = (_, later a.1 (pick i lt mv))

abbrev by0 :
    {s : System} (a : After s) {c : Clock} {q : Pc} → Move 0 a.0.clock (a.0.threads 0) c q → After s
by0 = then_by 0 (omega arith)

abbrev by1 :
    {s : System} (a : After s) {c : Clock} {q : Pc} → Move 1 a.0.clock (a.0.threads 1) c q → After s
by1 = then_by 1 (omega arith)

-- Thread 0 sets up the mutex before thread 1 begins.
abbrev set_up_once : After init
unfolding ℕ_discrete pthread_mutex_init
set_up_once = by0 (by0 (by0 (_, here) (Move.is_not_set_up refl)) Move.sets_up) Move.sets_flag

set_up_once-IsReady : IsReady set_up_once.0
unfolding ℕ_discrete pthread_mutex_init
set_up_once-IsReady = (refl, refl, refl, λ i. ground arith)

-- Thread 0 starts the clock at time 7.
abbrev started_by_0 : After set_up_once.0
unfolding ℕ_discrete pthread_mutex_init
started_by_0 =
    by0 (by0 (by0 (by0 (_, here) (Move.locks refl)) (Move.is_first refl)) (Move.reads 7)) Move.marks

-- Both threads return.
abbrev both_done : After started_by_0.0
unfolding ℕ_discrete pthread_mutex_init
both_done =
    let released = by0 (_, here) (Move.unlocks refl) in
    let locked = by1 (by1 released (Move.is_set_up refl)) (Move.locks refl) in
    by1 (by1 locked (Move.is_started refl)) (Move.unlocks refl)

append : {s t u : System} → Reach 2 s t → Reach 2 t u → Reach 2 s u
append r here = r
append r (later q st) = later (append r q) st

both_done_threads : (i : ℕ) → i < 2 → both_done.0.threads i ≡ Pc.done
unfolding ℕ_discrete pthread_mutex_init
both_done_threads zero lt = refl
both_done_threads (suc zero) lt = refl
both_done_threads (suc (suc i)) lt = ground arith

ct_stop_clock-all_done_example :
    ct_stop_clock 12 both_done.0.clock
    ≡ some (record {
      is_clock_lock_init = false;
      clock_lock = Mutex.destroyed;
      clock_started = false;
      start = 7;
      end = 12;
    })
unfolding ℕ_discrete pthread_mutex_init
ct_stop_clock-all_done_example =
    ct_stop_clock-all_done set_up_once-IsReady (append started_by_0.1 both_done.1) (omega arith)
      both_done_threads 12

ct_start_clock-sets_up_twice_example :
    (t : System) × Reach 2 init t × (t.clock.clock_lock ≡ Mutex.undefined)
ct_start_clock-sets_up_twice_example =
    ct_start_clock-sets_up_twice (omega arith) init.clock refl refl
