-- ===== src/Fabric/Regions.antt =====
-- performance/multi-node/random_access.c and auth_key_test.c: `random_access` registers memory, uses
-- it, and closes the regions, each with `assert(rc == FI_SUCCESS)`.
use cray_tests.Prelude.{◌≡◌, refl, ◌∙◌, true, List, [], ◌∷◌, Outcome, ok, ◌>>=◌, assert}
use cray_tests.Fabric.Libfabric.{Libfabric, Handle, Call, succeeded, remove}
use cray_tests.Fabric.Ends.{Closes}

module _ (lf : Libfabric) where
  open lf use {World, call, live, live-open, live-close}

  -- A call whose code is asserted to be 0.
  unfoldable pub checked : Call → World → Outcome World
  checked c w = let (rc, after) = call c w in assert (succeeded rc) after

  -- `fi_mr_reg` or `fi_mr_regattr` of each region, in this order.
  unfoldable pub register : List Handle → World → Outcome World
  unfolding checked
  register [] w = ok w
  register (h ∷ regions) w = do registered ← checked (Call.open' h) w; register regions registered

  unfoldable pub unregister : List Handle → World → Outcome World
  unfolding checked
  unregister [] w = ok w
  unregister (h ∷ regions) w = do closed ← checked (Call.close h) w; unregister regions closed

  -- The registrations succeed.
  abbrev pub Registers : List Handle → World → Type 0
  Registers [] w = Unit {0}
  Registers (h ∷ regions) w =
      (succeeded (call (Call.open' h) w).0 ≡ true) × Registers regions (call (Call.open' h) w).1

  -- What is open with the regions, the last one first, and after the given ones are closed.
  abbrev pub with_regions : List Handle → List Handle → List Handle
  with_regions [] l = l
  with_regions (h ∷ regions) l = with_regions regions (h ∷ l)

  abbrev pub without : List Handle → List Handle → List Handle
  without [] l = l
  without (h ∷ regions) l = without regions (remove h l)

  pub register-live :
      (regions : List Handle) (w : World)
      → Registers regions w
      → (after : World) × (register regions w ≡ ok after)
        × (live after ≡ with_regions regions (live w))
  unfolding register checked
  register-live [] w h = (w, refl, refl)
  register-live (r ∷ regions) w (s, h) =
      let (after, e, l) = register-live regions (call (Call.open' r) w).1 h in
      (after, rw s e, l ∙ rw (live-open r w, s) refl)

  pub unregister-live :
      (closes : Closes lf) (regions : List Handle) (w : World)
      → (after : World) × (unregister regions w ≡ ok after)
        × (live after ≡ without regions (live w))
  unfolding unregister checked
  unregister-live closes [] w = (w, refl, refl)
  unregister-live closes (r ∷ regions) w =
      let (after, e, l) = unregister-live closes regions (call (Call.close r) w).1 in
      (after, rw (closes r w) e, l ∙ rw (live-close r w, closes r w) refl)
