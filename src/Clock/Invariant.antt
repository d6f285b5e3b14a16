-- ===== src/Clock/Invariant.antt =====
-- include/ct_utils.h: what holds of the clock and of every thread once one thread has set up the
-- mutex and no other one is about to.
use mathlib.Core.Path.{subst}
use mathlib.Core.Logic.{ite}
use cray_tests.Prelude.{
  ℕ, ◌≡◌, ◌≢◌, ◌⊎◌, ◌<◌, inl, inr, refl, sym, ◌∙◌, Bool, true, false, arith, ℕ_discrete,
}
use cray_tests.Tbarrier.{update}
use cray_tests.Tbarrier.Counting.{update_elim}
use cray_tests.Clock.{Mutex, Clock, Pc, Move, System, Step, Reach, pick, here, later}

-- What thread `i` relies on at its place.
abbrev pub Holds : Mutex → Bool → ℕ → Pc → Type 0
Holds m started i Pc.test = Unit {0}
Holds m started i Pc.set_up = false ≡ true
Holds m started i Pc.set_flag = false ≡ true
Holds m started i Pc.lock = Unit {0}
Holds m started i Pc.check = m ≡ Mutex.held i
Holds m started i Pc.read_clock = (m ≡ Mutex.held i) × (started ≡ false)
Holds m started i Pc.mark = (m ≡ Mutex.held i) × (started ≡ false)
Holds m started i Pc.unlock = (m ≡ Mutex.held i) × (started ≡ true)
Holds m started i Pc.done = started ≡ true

-- A thread that is between `pthread_mutex_lock` and `pthread_mutex_unlock`.
abbrev pub inside : Pc → Bool
inside Pc.check = true
inside Pc.read_clock = true
inside Pc.mark = true
inside Pc.unlock = true
inside _ = false

-- The mutex is free, or one of the `n` threads holds it and is between the two calls.
abbrev pub IsOwned : ℕ → System → Type 0
IsOwned n s =
    (s.clock.clock_lock ≡ Mutex.free)
    ⊎ ((k : ℕ) × (k < n) × (s.clock.clock_lock ≡ Mutex.held k) × (inside (s.threads k) ≡ true))

pub record Inv (n : ℕ) (s : System) : Type 0 where
  pub is_set_up : s.clock.is_clock_lock_init ≡ true
  pub owned : IsOwned n s
  pub threads : (i : ℕ) → Holds s.clock.clock_lock s.clock.clock_started i (s.threads i)

-- What the other threads rely on when one takes the mutex, stores `clock_started` or releases it.
Holds-locks :
    (i j : ℕ) (p : Pc) (m : Mutex) (started : Bool)
    → m ≡ Mutex.free
    → Holds m started j p
    → Holds (Mutex.held i) started j p
Holds-locks i j p m started e h = ground arith

Holds-marks :
    (i j : ℕ) (p : Pc) (m : Mutex) (started : Bool)
    → i ≢ j
    → m ≡ Mutex.held i
    → started ≡ false
    → Holds m started j p
    → Holds m true j p
Holds-marks i j p m started ne e first h = ground arith

Holds-unlocks :
    (i j : ℕ) (p : Pc) (m : Mutex) (started : Bool)
    → i ≢ j
    → m ≡ Mutex.held i
    → Holds m started j p
    → Holds Mutex.free started j p
Holds-unlocks i j p m started ne e h = ground arith

module _ (n : ℕ) (s : System) (inv : Inv n s) (i : ℕ) (lt : i < n) where
  -- The state after thread `i` has gone to `p` and left `c`.
  abbrev moved : Clock → Pc → System
  moved c p = record { clock = c; threads = update s.threads i p }

  -- The invariant from what thread `i` and the others rely on.
  moved-Inv :
      (c : Clock) (p : Pc)
      → c.is_clock_lock_init ≡ true
      → IsOwned n (moved c p)
      → Holds c.clock_lock c.clock_started i p
      → ((j : ℕ) → i ≢ j → Holds c.clock_lock c.clock_started j (s.threads j))
      → Inv n (moved c p)
  moved-Inv c p is_set_up owned own others = record {
    is_set_up = is_set_up;
    owned = owned;
    threads = λ j.
        elim (ℕ_discrete i j)
          as (λ d. Holds c.clock_lock c.clock_started j (ite d p (s.threads j))) [
            | yes e ↦ subst (λ k. Holds c.clock_lock c.clock_started k p) e own
            | no ne ↦ others j ne
          ];
  }

  -- A step that leaves the mutex alone, by a thread that stays inside if it was.
  same_owner :
      (c : Clock) (p : Pc)
      → c.clock_lock ≡ s.clock.clock_lock
      → (inside (s.threads i) ≡ true → inside p ≡ true)
      → IsOwned n (moved c p)
  same_owner c p e stays = elim inv.owned [
    | inl none_holds ↦ inl (e ∙ none_holds)
    | inr (k, b, holds, in_k) ↦ inr (
      k,
      b,
      e ∙ holds,
      elim (ℕ_discrete i k) as (λ d. inside (ite d p (s.threads k)) ≡ true) [
        | yes same ↦ stays (subst (λ j. inside (s.threads j) ≡ true) (sym same) in_k)
        | no ne ↦ in_k
      ],
    )
  ]

  new_owner :
      (c : Clock) (p : Pc) → c.clock_lock ≡ Mutex.held i → inside p ≡ true → IsOwned n (moved c p)
  new_owner c p e in_p =
      inr (
        i,
        lt,
        e,
        update_elim (λ q. inside q ≡ true) s.threads i i p in_p (λ ne. elim (ne refl) [ ]),
      )

  -- The same for a step that changes neither the mutex nor `clock_started`.
  stays :
      (c : Clock) (p : Pc)
      → c.clock_lock ≡ s.clock.clock_lock
      → c.clock_started ≡ s.clock.clock_started
      → c.is_clock_lock_init ≡ true
      → (inside (s.threads i) ≡ true → inside p ≡ true)
      → Holds s.clock.clock_lock s.clock.clock_started i p
      → Inv n (moved c p)
  stays c p e f is_set_up in_p own =
      moved-Inv c p is_set_up (same_owner c p e in_p) (rw (e, f) own)
        (λ j ne. rw (e, f) (inv.threads j))

  move-Inv :
      {c : Clock} {p q : Pc}
      → s.threads i ≡ p
      → Move i s.clock p c q
      → Holds s.clock.clock_lock s.clock.clock_started i p
      → Inv n (moved c q)
  move-Inv at (Move.is_set_up e) h = stays _ _ refl refl inv.is_set_up (λ x. ground arith) tt
  move-Inv at (Move.is_not_set_up e) h = let up = inv.is_set_up in ground arith
  move-Inv at Move.sets_up h = ground arith
  move-Inv at Move.sets_flag h = ground arith
  move-Inv at (Move.locks e) h =
      let c : Clock = record s.clock { clock_lock = Mutex.held i } in
      moved-Inv c Pc.check inv.is_set_up (new_owner c Pc.check refl refl) refl
        (λ j ne. Holds-locks i j (s.threads j) _ _ e (inv.threads j))
  move-Inv at (Move.is_first e) h = stays _ _ refl refl inv.is_set_up (λ x. refl) (h, e)
  move-Inv at (Move.is_started e) h = stays _ _ refl refl inv.is_set_up (λ x. refl) (h, e)
  move-Inv at (Move.reads now) h = stays _ _ refl refl inv.is_set_up (λ x. refl) h
  move-Inv at Move.marks (e, first) =
      let c : Clock = record s.clock { clock_started = true } in
      moved-Inv c Pc.unlock inv.is_set_up (same_owner c Pc.unlock refl (λ x. refl)) (e, refl)
        (λ j ne. Holds-marks i j (s.threads j) _ _ ne e first (inv.threads j))
  move-Inv at (Move.unlocks _) (e, started) =
      moved-Inv _ _ inv.is_set_up (inl refl) started
        (λ j ne. Holds-unlocks i j (s.threads j) _ _ ne e (inv.threads j))

Step-Inv : {n : ℕ} {s t : System} → Step n s t → Inv n s → Inv n t
Step-Inv (pick i lt mv) inv = move-Inv _ _ inv i lt refl mv (inv.threads i)

-- The invariant holds in every state that is reached from one where it holds.
pub Reach-Inv : {n : ℕ} {s t : System} → Inv n s → Reach n s t → Inv n t
Reach-Inv inv here = inv
Reach-Inv inv (later r st) = Step-Inv st (Reach-Inv inv r)
