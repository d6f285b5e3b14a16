-- ===== src/Tbarrier.antt =====
-- include/ct_tbarrier.h: the barrier of the benchmark threads. `n` threads share two counters and
-- two signals; each has its own `fabtests_tbar_t` with the phases and the slot that it uses next.
-- The atomics are sequentially consistent, so a run is an interleaving of single accesses.
pub mod Counting
pub mod Invariant
pub mod Safety
mod Tests
use cray_tests.Prelude.{ℕ, suc, ◌+◌, ◌-◌, ◌<◌, ◌≡◌, ◌≢◌, ◌==◌, if◌then◌else◌, ℕ_discrete}
use mathlib.Core.Logic.{ite}

-- An array of two `int`s, indexed by a slot, which is 0 or 1.
pub record Two : Type 0 where
  pub at0 : ℕ
  pub at1 : ℕ

abbrev pub get : Two → ℕ → ℕ
get a slot = if slot == 0 then a.at0 else a.at1

abbrev pub put : Two → ℕ → ℕ → Two
put a slot v = if slot == 0 then record a { at0 = v } else record a { at1 = v }

-- `counter` and `signal`, to which every `fabtests_tbar_t` points.
pub record Shared : Type 0 where
  pub counter : Two
  pub signal : Two

-- The fields of one thread's `fabtests_tbar_t`. `entered` and `left` count its calls of
-- `ct_tbarrier`, those begun and those finished; the code does not have them.
pub record Local : Type 0 where
  pub phase : Two
  pub slot : ℕ
  pub entered : ℕ
  pub left : ℕ

-- Where a thread stands in `ct_tbarrier`.
pub data Pc : Type 0 where
  idle : Pc  -- outside
  reset : Pc  -- the last to join, before the store to the counter
  toggle : Pc  -- before the store to the signal
  spin : Pc  -- before a load in the `do … while` loop
  leaving : Pc  -- before the last two assignments

pub record Thread : Type 0 where
  pub local : Local
  pub pc : Pc

-- `ct_tbarrier_init` on the thread's part, and on the shared arrays as the loader zeroes them.
abbrev pub init_local : Local
init_local = record { phase = record { at0 = 0; at1 = 0 }; slot = 0; entered = 0; left = 0 }

abbrev pub init_shared : Shared
init_shared = record { counter = record { at0 = 0; at1 = 0 }; signal = record { at0 = 0; at1 = 0 } }

abbrev pub begin : Local → Local
begin l = record l { entered = l.entered + 1 }

-- `phase[slot] = 1 - phase[slot]; slot = 1 - slot;`
abbrev pub finish : Local → Local
finish l = record l {
  phase = put l.phase l.slot (1 - get l.phase l.slot);
  slot = 1 - l.slot;
  left = l.left + 1;
}

-- One access to shared memory, or the local end of the call, by a thread with fields `l`.
pub data Move (n : ℕ) (m : Shared) (l : Local) : Pc → Shared → Local → Pc → Type 0 where
  join_last :
      get m.counter l.slot + 1 ≡ n
      → Move n m l idle
          (record m { counter = put m.counter l.slot (get m.counter l.slot + 1) })
          (begin l)
          reset
  join :
      get m.counter l.slot + 1 ≢ n
      → Move n m l idle
          (record m { counter = put m.counter l.slot (get m.counter l.slot + 1) })
          (begin l)
          spin
  clear : Move n m l reset (record m { counter = put m.counter l.slot 0 }) l toggle
  flip :
      Move n m l toggle
        (record m { signal = put m.signal l.slot (1 - get l.phase l.slot) })
        l
        leaving
  again : get m.signal l.slot ≡ get l.phase l.slot → Move n m l spin m l spin
  go : get m.signal l.slot ≢ get l.phase l.slot → Move n m l spin m l leaving
  leave : Move n m l leaving m (finish l) idle

abbrev pub update {ℓ} : {A : Type ℓ} → (ℕ → A) → ℕ → A → ℕ → A
update f i a j = ite (ℕ_discrete i j) a (f j)

pub record System : Type 0 where
  pub mem : Shared
  pub threads : ℕ → Thread

pub data Step (n : ℕ) (s : System) : System → Type 0 where
  pick :
      (i : ℕ) {m : Shared} {l : Local} {p : Pc}
      → i < n
      → Move n s.mem (s.threads i).local (s.threads i).pc m l p
      → Step n s (record { mem = m; threads = update s.threads i (record { local = l; pc = p }) })

abbrev pub init : System
init = record { mem = init_shared; threads = λ _. record { local = init_local; pc = Pc.idle } }

pub data Reach (n : ℕ) : System → Type 0 where
  start : Reach n init
  later : {s t : System} → Reach n s → Step n s t → Reach n t
