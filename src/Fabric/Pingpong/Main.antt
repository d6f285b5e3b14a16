-- ===== src/Fabric/Pingpong/Main.antt =====
-- performance/multi-node/rdm_pingpong.c: the objects that `main` opens, for all its threads, and that it
-- closes them.
use cray_tests.Prelude.{ℕ, suc, ◌≡◌, refl, arith, Bool, true, false, List, [], ◌∷◌, ◌++◌}
use cray_tests.Fabric.Libfabric.{Libfabric, Handle}
use cray_tests.Fabric.Ends.{Code, Closes}
use cray_tests.Fabric.Threads.{
  above, AllInit, main_resources, live-closed_later, main_resources-live,
}
use cray_tests.Fabric.Pingpong.{
  free_ep_res, init_fabric, init_per_thread_data, fini_per_thread_data,
}
use cray_tests.Fabric.Pingpong.Lifecycle.{init_fabric-Ends, init_per_thread_data-Opens}

-- What one thread has open, the last one opened first.
abbrev pub group : ℕ → List Handle
group i = Handle.thread_av i ∷ Handle.rcq i ∷ Handle.scq i ∷ Handle.ep i ∷ []

module _ (lf : Libfabric) where
  open lf use {World}

  -- `main` with its number of threads and of processes, and whether there is memory for the threads.
  unfoldable pub main : ℕ → ℕ → Bool → Code lf
  main threads numprocs calloc_ok =
      main_resources lf (init_fabric lf) (λ i. init_per_thread_data lf i numprocs)
        (λ i. fini_per_thread_data lf i false false) threads numprocs calloc_ok

module _ (lf : Libfabric) (closes : Closes lf) where
  open lf use {World, live}

  fini_per_thread_data-live :
      (i n : ℕ) (w : World) (l : List Handle)
      → live w ≡ above group (suc i) n ++ (group i ++ l)
      → live (fini_per_thread_data lf i false false w) ≡ above group (suc i) n ++ l
  unfolding fini_per_thread_data free_ep_res
  fini_per_thread_data-live i n w l e =
      let thread_av_closed =
        live-closed_later lf closes group (Handle.thread_av i) i n _ _ (λ j le. ground arith) e in
      let rcq_closed =
        live-closed_later lf closes group (Handle.rcq i) i n _ _ (λ j le. ground arith)
          thread_av_closed in
      let scq_closed =
        live-closed_later lf closes group (Handle.scq i) i n _ _ (λ j le. ground arith)
          rcq_closed in
      live-closed_later lf closes group (Handle.ep i) i n _ _ (λ j le. ground arith) scq_closed

  -- `main` of rdm_pingpong.c leaves open exactly what was open before, for any number of threads,
  -- also when it ends early since there are not two processes or the fabric cannot be opened; the
  -- set-up of each thread and `fi_close` succeed, and the memory for the threads is there; no
  -- memory is registered.
  pub pingpong_main-live :
      (threads numprocs : ℕ) (w : World)
      → AllInit lf (λ i. init_per_thread_data lf i numprocs) 0 threads (init_fabric lf w).1
      → live (main lf threads numprocs true w).1 ≡ live w
  unfolding main
  pingpong_main-live threads numprocs w h =
      main_resources-live lf closes group (λ i. init_per_thread_data lf i numprocs)
        (λ i. fini_per_thread_data lf i false false)
        (λ i v. init_per_thread_data-Opens lf closes i numprocs v) fini_per_thread_data-live
        (init_fabric lf) threads numprocs w (init_fabric-Ends lf closes w (live w) refl) h
