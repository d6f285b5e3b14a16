-- ===== src/Fabric/Threads.antt =====
-- performance/multi-node/rdm_one_sided.c and rdm_pingpong.c: how `main` opens the resources of its
-- threads one after the other, and closes them in the same order.
use mathlib.Core.List.{append_assoc}
use cray_tests.Prelude.{
  ℕ, zero, suc, ◌≤◌, ◌≡◌, refl, sym, ap, ◌∙◌, arith, Bool, true, false, Bool-cases, inl, inr, List,
  [], ◌∷◌, ◌++◌, if◌then◌else◌,
}
use cray_tests.Fabric.Libfabric.{
  Libfabric, Handle, same, Call, pos, negsuc, succeeded, remove, is_value,
}
use cray_tests.Fabric.Ends.{Code, return, attempt, Closes, Ends, Opens, live-closed, same_refl}

-- A handle is none of a list.
abbrev pub NotIn : Handle → List Handle → Type 0
NotIn h [] = Unit {0}
NotIn h (g ∷ pre) = (same h g ≡ false) × NotIn h pre

NotIn-append : (h : Handle) (xs ys : List Handle) → NotIn h xs → NotIn h ys → NotIn h (xs ++ ys)
NotIn-append h [] ys n m = m
NotIn-append h (x ∷ xs) ys (e, n) m = (e, NotIn-append h xs ys n m)

remove-after : (h : Handle) (pre l : List Handle) → NotIn h pre → remove h (pre ++ h ∷ l) ≡ pre ++ l
remove-after h [] l n = rw (same_refl h) refl
remove-after h (g ∷ pre) l (e, n) = rw e (ap (λ t. g ∷ t) (remove-after h pre l n))

-- The resources of the threads from `i` on, the last thread's first.
module _ (group : ℕ → List Handle) where
  abbrev pub above : ℕ → ℕ → List Handle
  above i zero = []
  above i (suc n) = above (suc i) n ++ group i

  NotIn-above : (h : Handle) (i n : ℕ) → ((j : ℕ) → i ≤ j → NotIn h (group j)) → NotIn h (above i n)
  NotIn-above h i zero later = tt
  NotIn-above h i (suc n) later =
      NotIn-append h (above (suc i) n) (group i)
        (NotIn-above h (suc i) n (λ j le. later j (omega arith))) (later i (omega arith))

module _ (lf : Libfabric) where
  open lf use {World, call, live, live-close}

  -- The loop over the threads; the return code is not looked at.
  unfoldable pub init_threads : (ℕ → Code lf) → ℕ → ℕ → World → World
  init_threads init i zero w = w
  init_threads init i (suc n) w = init_threads init (suc i) n (init i w).1

  unfoldable pub fini_threads : (ℕ → World → World) → ℕ → ℕ → World → World
  fini_threads fini i zero w = w
  fini_threads fini i (suc n) w = fini_threads fini (suc i) n (fini i w)

  -- All of these calls succeed.
  unfoldable pub AllInit : (ℕ → Code lf) → ℕ → ℕ → World → Type 0
  AllInit init i zero w = Unit {0}
  AllInit init i (suc n) w = (succeeded (init i w).0 ≡ true) × AllInit init (suc i) n (init i w).1

  -- The resources of the threads, and the end of `main`. The rounds in between open and close
  -- nothing.
  unfoldable pub started : (ℕ → Code lf) → (ℕ → World → World) → ℕ → Code lf
  unfolding init_threads fini_threads
  started init fini threads w =
      let threads_closed = fini_threads fini 0 threads (init_threads init 0 threads w) in
      let dom_closed = (call (Call.close Handle.dom) threads_closed).1 in
      (pos 0, (call (Call.close Handle.fab) dom_closed).1)

  -- `main` from its test of the number of processes on; `calloc_ok` is whether the memory for the
  -- threads is there.
  unfoldable pub main_resources :
      Code lf → (ℕ → Code lf) → (ℕ → World → World) → ℕ → ℕ → Bool → Code lf
  unfolding started
  main_resources init_fabric init fini threads numprocs calloc_ok w =
      let with_memory : Code lf =
        λ w1. if calloc_ok then started init fini threads w1 else (negsuc 0, w1) in
      if is_value numprocs (pos 2)
      then attempt lf init_fabric (return lf) with_memory w
      else (negsuc 0, w)

module _ (lf : Libfabric) (closes : Closes lf) where
  open lf use {World, call, live, live-close}

  live-closed_after :
      (h : Handle) (w : World) (pre l : List Handle)
      → NotIn h pre
      → live w ≡ pre ++ h ∷ l
      → live (call (Call.close h) w).1 ≡ pre ++ l
  live-closed_after h w pre l n e = live-close h w ∙ rw (closes h w, e) (remove-after h pre l n)

  -- The same for a handle of thread `i`, when those of the later threads are still open.
  pub live-closed_later :
      (group : ℕ → List Handle) (h : Handle) (i n : ℕ) (w : World) (l : List Handle)
      → ((j : ℕ) → suc i ≤ j → NotIn h (group j))
      → live w ≡ above group (suc i) n ++ h ∷ l
      → live (call (Call.close h) w).1 ≡ above group (suc i) n ++ l
  live-closed_later group h i n w l later e =
      live-closed_after h w (above group (suc i) n) l (NotIn-above group h (suc i) n later) e

  module _ (group : ℕ → List Handle) (init : ℕ → Code lf) (fini : ℕ → World → World)
      (opens : (i : ℕ) (w : World) → Opens lf (group i ++ live w) (init i w))
      (ends : (i n : ℕ) (w : World) (l : List Handle)
        → live w ≡ above group (suc i) n ++ (group i ++ l)
        → live (fini i w) ≡ above group (suc i) n ++ l) where
    init_threads-live :
        (i n : ℕ) (w : World)
        → AllInit lf init i n w
        → live (init_threads lf init i n w) ≡ above group i n ++ live w
    unfolding init_threads AllInit
    init_threads-live i zero w h = refl
    init_threads-live i (suc n) w (s, h) =
        init_threads-live (suc i) n (init i w).1 h
        ∙ ap (λ l. above group (suc i) n ++ l) (opens i w s)
        ∙ sym (append_assoc (above group (suc i) n) (group i) (live w))

    fini_threads-live :
        (i n : ℕ) (w : World) (l : List Handle)
        → live w ≡ above group i n ++ l
        → live (fini_threads lf fini i n w) ≡ l
    unfolding fini_threads
    fini_threads-live i zero w l e = e
    fini_threads-live i (suc n) w l e =
        fini_threads-live (suc i) n (fini i w) l
          (ends i n w l (e ∙ append_assoc (above group (suc i) n) (group i) l))

    started-live :
        (threads : ℕ) (w w1 : World)
        → live w1 ≡ Handle.dom ∷ Handle.fab ∷ live w
        → AllInit lf init 0 threads w1
        → live (started lf init fini threads w1).1 ≡ live w
    unfolding started
    started-live threads w w1 e h = live-closed lf closes Handle.fab _ (live w) (
        live-closed lf closes Handle.dom _ _
          (fini_threads-live 0 threads _ _ (init_threads-live 0 threads w1 h) ∙ e))

    -- `main` leaves open exactly what was open before.
    pub main_resources-live :
        (init_fabric : Code lf) (threads numprocs : ℕ) (w : World)
        → Ends lf (Handle.dom ∷ Handle.fab ∷ live w) (live w) (init_fabric w)
        → AllInit lf init 0 threads (init_fabric w).1
        → live (main_resources lf init_fabric init fini threads numprocs true w).1 ≡ live w
    unfolding main_resources attempt Ends
    main_resources-live init_fabric threads numprocs w (inl (s, e)) h =
        elim (Bool-cases (is_value numprocs (pos 2))) [
          | inl two ↦ rw (two, s) (started-live threads w (init_fabric w).1 e h)
          | inr other ↦ rw other refl
        ]
    main_resources-live init_fabric threads numprocs w (inr (s, e)) h =
        elim (Bool-cases (is_value numprocs (pos 2))) [
          | inl two ↦ rw (two, s) e
          | inr other ↦ rw other refl
        ]
