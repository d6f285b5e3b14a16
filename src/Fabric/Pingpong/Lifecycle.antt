-- ===== src/Fabric/Pingpong/Lifecycle.antt =====
-- performance/multi-node/rdm_pingpong.c: the set-up is the one of rdm_one_sided.c up to the
-- registration of memory, which this program leaves out.
use cray_tests.Prelude.{ℕ, ◌≡◌, refl, true, false, List, ◌∷◌}
use cray_tests.Fabric.Libfabric.{Libfabric, Handle, succeeded, remove}
use cray_tests.Fabric.Ends.{Closes, Ends, live-closed, Opens, Opens-attempt}
use cray_tests.Fabric.OneSided
use cray_tests.Fabric.OneSided.Lifecycle
use cray_tests.Fabric.Pingpong.{
  free_ep_res, alloc_ep_res, bind_ep_res, init_fabric, init_endpoint, init_av, init_per_thread_data,
  fini_per_thread_data,
}

module _ (lf : Libfabric) (closes : Closes lf) where
  open lf use {World, live}

  init_endpoint-dom :
      (i : ℕ) (w : World) (l : List Handle)
      → live w ≡ l
      → Ends lf
          (Handle.thread_av i ∷ Handle.rcq i ∷ Handle.scq i ∷ Handle.ep i ∷ l)
          (remove Handle.dom l)
          (init_endpoint lf i w)
  unfolding OneSided.init_endpoint OneSided.alloc_ep_res OneSided.bind_ep_res OneSided.free_ep_res
      init_endpoint alloc_ep_res bind_ep_res free_ep_res
  init_endpoint-dom = Lifecycle.init_endpoint-closes_domain lf closes

  -- `init_fabric` opens the fabric and the domain, or returns an error with neither open.
  pub init_fabric-Ends :
      (w : World) (l : List Handle)
      → live w ≡ l
      → Ends lf (Handle.dom ∷ Handle.fab ∷ l) l (init_fabric lf w)
  unfolding OneSided.init_fabric init_fabric
  init_fabric-Ends = Lifecycle.init_fabric-Ends lf closes

  init_av-Ends :
      (i numprocs : ℕ) (w : World) (l : List Handle)
      → live w ≡ l
      → Ends lf l l (init_av lf i numprocs w)
  unfolding OneSided.init_av init_av
  init_av-Ends = Lifecycle.init_av-Ends lf closes

  free_ep_res-live :
      (i : ℕ) (w : World) (l : List Handle)
      → live w ≡ Handle.thread_av i ∷ Handle.rcq i ∷ Handle.scq i ∷ l
      → live (free_ep_res lf i w) ≡ l
  unfolding OneSided.free_ep_res free_ep_res
  free_ep_res-live = Lifecycle.free_ep_res-live lf closes

  pub init_per_thread_data-Opens :
      (i numprocs : ℕ) (w : World)
      → Opens lf
          (Handle.thread_av i ∷ Handle.rcq i ∷ Handle.scq i ∷ Handle.ep i ∷ live w)
          (init_per_thread_data lf i numprocs w)
  unfolding init_per_thread_data
  init_per_thread_data-Opens i numprocs w =
      Opens-attempt lf (init_endpoint lf i) _ _ w _ _ _ (λ _ _ f _ t. absurd (cc))
        (init_endpoint-dom i w (live w) refl)
        (λ w1 e1.
          Opens-attempt lf _ _ _ w1 _ _ _ (λ _ _ f _ t. absurd (cc))
            (init_av-Ends i numprocs w1 _ e1) (λ w2 e2 _. e2))

  -- `fini_per_thread_data` after an `init_per_thread_data` that succeeded leaves open exactly what
  -- was open before, while `fi_close` succeeds and no memory is registered.
  pub pingpong_fini-init :
      (i numprocs : ℕ) (w : World)
      → succeeded (init_per_thread_data lf i numprocs w).0 ≡ true
      → live (fini_per_thread_data lf i false false (init_per_thread_data lf i numprocs w).1)
        ≡ live w
  unfolding fini_per_thread_data
  pingpong_fini-init i numprocs w s =
      live-closed lf closes (Handle.ep i) _ (live w)
        (free_ep_res-live i _ _ (init_per_thread_data-Opens i numprocs w s))
