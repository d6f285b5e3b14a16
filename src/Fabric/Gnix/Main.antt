-- ===== src/Fabric/Gnix/Main.antt =====
-- performance/multi-node/random_access.c: what `main` opens and closes, with the memory regions of
-- `random_access`.
use cray_tests.Prelude.{
  ℕ, ◌≡◌, refl, ◌∙◌, Bool, true, false, List, [], ◌∷◌, Outcome, ok, fault, ◌>>=◌, if◌then◌else◌,
}
use cray_tests.Fabric.Libfabric.{Libfabric, Handle, succeeded}
use cray_tests.Fabric.Ends.{Closes}
use cray_tests.Fabric.Regions.{register, unregister, Registers, register-live, unregister-live}
use cray_tests.Fabric.Gnix.{init_gnix_prov, fini_gnix_prov}
use cray_tests.Fabric.Gnix.Lifecycle.{fini_after-live}

-- The regions of `app_data_t`, in the order in which they are registered.
abbrev pub regions : List Handle
regions = Handle.l_table_mr ∷ Handle.l_lock_mr ∷ Handle.l_scratch_mr ∷ []

module _ (lf : Libfabric) where
  open lf use {World}

  -- `random_access`; `recv_abort` is whether some rank has no memory.
  unfoldable pub random_access : Bool → World → Outcome World
  unfolding register unregister
  random_access recv_abort w =
      if recv_abort
      then ok w
      else register lf regions w
        >>= unregister lf (Handle.l_lock_mr ∷ Handle.l_table_mr ∷ Handle.l_scratch_mr ∷ [])

  -- `main` from `init_gnix_prov` on. It does not look at the code of `init_gnix_prov`, and is at
  -- fault when the provider is not there.
  unfoldable pub main : ℕ → Bool → World → Outcome World
  unfolding random_access
  main num_ranks recv_abort w =
      let (ret, inited) = init_gnix_prov lf num_ranks w in
      if succeeded ret
      then random_access recv_abort inited
        >>= (λ used. ok (fini_gnix_prov lf num_ranks true true true used))
      else fault

module _ (lf : Libfabric) (closes : Closes lf) where
  open lf use {World, live}

  random_access-live :
      (recv_abort : Bool) (w : World)
      → Registers lf regions w
      → (used : World) × (random_access lf recv_abort w ≡ ok used) × (live used ≡ live w)
  unfolding random_access
  random_access-live true w h = (w, refl, refl)
  random_access-live false w h =
      let (registered, e, l) = register-live lf regions w h in
      let (used, f, m) =
        unregister-live lf closes (Handle.l_lock_mr ∷ Handle.l_table_mr ∷ Handle.l_scratch_mr ∷ [])
          registered in
      (used, rw e f, m ∙ rw l refl)

  -- `main` runs to its end, whether or not the ranks have the memory, and leaves open exactly what
  -- was open before, for any number of ranks, when the provider is set up, the three regions are
  -- registered, and `fi_close` succeeds.
  pub gups_main-live :
      (num_ranks : ℕ) (recv_abort : Bool) (w : World)
      → succeeded (init_gnix_prov lf num_ranks w).0 ≡ true
      → Registers lf regions (init_gnix_prov lf num_ranks w).1
      → (after : World) × (main lf num_ranks recv_abort w ≡ ok after) × (live after ≡ live w)
  unfolding main
  gups_main-live num_ranks recv_abort w s h =
      let (used, e, l) = random_access-live recv_abort (init_gnix_prov lf num_ranks w).1 h in
      (_, rw (s, e) refl, fini_after-live lf closes num_ranks w used s l)
