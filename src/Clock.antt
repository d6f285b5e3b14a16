-- ===== src/Clock.antt =====
-- include/ct_utils.h: the clock that the threads of performance/single-node/lock_tests.c start and
-- that the main thread stops. A run of `ct_start_clock` is an interleaving of single accesses to
-- the variables of the clock, and a mutex does what POSIX says of it.
pub mod Invariant
pub mod Safety
pub mod Race
mod Tests
use cray_tests.Prelude.{ℕ, ◌<◌, ◌≡◌, Bool, true, false, Option, none, some, if◌then◌else◌}
use cray_tests.Tbarrier.{update}

-- A `pthread_mutex_t`. `undefined` is one that was set up a second time without
-- being destroyed, of which POSIX says nothing.
pub data Mutex : Type 0 where
  destroyed : Mutex
  free : Mutex
  held : ℕ → Mutex
  undefined : Mutex

unfoldable pub pthread_mutex_init : Mutex → Mutex
pthread_mutex_init Mutex.destroyed = Mutex.free
pthread_mutex_init _ = Mutex.undefined

-- The variables of the clock.
pub record Clock : Type 0 where
  pub is_clock_lock_init : Bool
  pub clock_lock : Mutex
  pub clock_started : Bool
  pub start : ℕ
  pub end : ℕ

-- Where a thread stands in `ct_start_clock`: what it does next.
pub data Pc : Type 0 where
  test : Pc  -- load `is_clock_lock_init`
  set_up : Pc  -- `pthread_mutex_init`
  set_flag : Pc  -- store `is_clock_lock_init`
  lock : Pc
  check : Pc  -- load `clock_started`
  read_clock : Pc  -- `start = clock()`
  mark : Pc  -- store `clock_started`
  unlock : Pc
  done : Pc

-- One access by thread `i` in state `c`, at its place before and after.
pub data Move (i : ℕ) (c : Clock) : Pc → Clock → Pc → Type 0 where
  is_set_up : c.is_clock_lock_init ≡ true → Move i c Pc.test c Pc.lock
  is_not_set_up : c.is_clock_lock_init ≡ false → Move i c Pc.test c Pc.set_up
  sets_up :
      Move i c Pc.set_up (record c { clock_lock = pthread_mutex_init c.clock_lock }) Pc.set_flag
  sets_flag : Move i c Pc.set_flag (record c { is_clock_lock_init = true }) Pc.lock
  locks :
      c.clock_lock ≡ Mutex.free → Move i c Pc.lock (record c { clock_lock = Mutex.held i }) Pc.check
  is_first : c.clock_started ≡ false → Move i c Pc.check c Pc.read_clock
  is_started : c.clock_started ≡ true → Move i c Pc.check c Pc.unlock
  reads : (now : ℕ) → Move i c Pc.read_clock (record c { start = now }) Pc.mark
  marks : Move i c Pc.mark (record c { clock_started = true }) Pc.unlock
  unlocks :
      c.clock_lock ≡ Mutex.held i
      → Move i c Pc.unlock (record c { clock_lock = Mutex.free }) Pc.done

pub record System : Type 0 where
  pub clock : Clock
  pub threads : ℕ → Pc

-- One of the `n` threads makes its next access.
pub data Step (n : ℕ) (s : System) : System → Type 0 where
  pick :
      (i : ℕ) {c : Clock} {p : Pc}
      → i < n
      → Move i s.clock (s.threads i) c p
      → Step n s (record { clock = c; threads = update s.threads i p })

-- The states that are reached from `s`.
pub data Reach (n : ℕ) (s : System) : System → Type 0 where
  here : Reach n s s
  later : {t u : System} → Reach n s t → Step n t u → Reach n s u

-- The clock as the loader zeroes it, and as `ct_stop_clock` leaves it, with all threads before the
-- call.
abbrev pub init : System
init = record {
  clock = record {
    is_clock_lock_init = false;
    clock_lock = Mutex.destroyed;
    clock_started = false;
    start = 0;
    end = 0;
  };
  threads = λ _. Pc.test;
}

-- `pthread_mutex_destroy` of a mutex that nobody holds, if it was set up.
unfoldable pub destroy_lock : Clock → Clock
destroy_lock c =
    if c.is_clock_lock_init
    then record c { clock_lock = Mutex.destroyed; is_clock_lock_init = false }
    else c

unfoldable pub stop_with : Mutex → ℕ → Clock → Option Clock
unfolding destroy_lock
stop_with Mutex.free now c =
    some
      (destroy_lock (if c.clock_started then record c { end = now; clock_started = false } else c))
stop_with _ now c = none

-- `ct_stop_clock` at time `now`, when no thread is left that could release the mutex: no result when
-- it is not free.
unfoldable pub ct_stop_clock : ℕ → Clock → Option Clock
unfolding stop_with
ct_stop_clock now c = stop_with c.clock_lock now c
