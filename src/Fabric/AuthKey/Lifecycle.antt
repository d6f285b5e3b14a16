-- ===== src/Fabric/AuthKey/Lifecycle.antt =====
-- performance/multi-node/auth_key_test.c: the set-up is the one of random_access.c.
use cray_tests.Prelude.{ℕ, zero, suc, ap, sym, ◌∙◌, ◌≡◌, refl, true, List, ◌∷◌}
use cray_tests.Fabric.Libfabric.{Libfabric, Handle, Call, ℤ, pos, succeeded}
use cray_tests.Fabric.Ends.{Code, return, attempt, Closes, Ends}
use cray_tests.Fabric.Gnix
use cray_tests.Fabric.Gnix.Lifecycle
use cray_tests.Fabric.AuthKey.{
  free_ep_res, alloc_ep_res, bind_ep_res, init_fabric, init_endpoint, init_av, init_endpoints,
  init_gnix_prov, fini_endpoints, fini_gnix_prov,
}

module _ (lf : Libfabric) (closes : Closes lf) where
  open lf use {World, live}

  -- `init_endpoint` opens the endpoint of the rank and its two queues, or returns an error with all
  -- closed that it had opened, while `fi_close` succeeds.
  pub auth_key_endpoint-Ends :
      (r : ℕ) (w : World) (l : List Handle)
      → live w ≡ l
      → Ends lf (Handle.rcq r ∷ Handle.scq r ∷ Handle.ep r ∷ l) l (init_endpoint lf r w)
  unfolding Gnix.init_endpoint Gnix.alloc_ep_res Gnix.bind_ep_res Gnix.free_ep_res init_endpoint
      alloc_ep_res bind_ep_res free_ep_res
  auth_key_endpoint-Ends = Lifecycle.init_endpoint-Ends lf closes

  init_endpoints-same :
      (i n : ℕ) (next : Code lf) (w : World)
      → init_endpoints lf i n next w ≡ Gnix.init_endpoints lf i n next w
  unfolding Gnix.init_endpoints Gnix.init_endpoint Gnix.alloc_ep_res Gnix.bind_ep_res
      Gnix.free_ep_res init_endpoints init_endpoint alloc_ep_res bind_ep_res free_ep_res
  init_endpoints-same i zero next w = refl
  init_endpoints-same i (suc n) next w =
      ap (λ code. attempt lf (init_endpoint lf i) (return lf) code w)
        (λ j w'. init_endpoints-same (suc i) n next w' j)

  init_gnix_prov-same :
      (num_ranks : ℕ) (w : World)
      → init_gnix_prov lf num_ranks w ≡ Gnix.init_gnix_prov lf num_ranks w
  unfolding Gnix.init_gnix_prov Gnix.init_fabric Gnix.init_av init_gnix_prov init_fabric init_av
  init_gnix_prov-same num_ranks w =
      ap
        (λ code.
          attempt lf (init_fabric lf) (return lf)
            (attempt lf (lf.call (Call.open' Handle.av)) (return lf) code) w)
        (λ j w'.
          init_endpoints-same 0 num_ranks
            (attempt lf (init_av lf num_ranks 0) (return lf) (return lf (pos 0))) w' j)

  fini_endpoints-same :
      (i n : ℕ) (w : World) → fini_endpoints lf i n w ≡ Gnix.fini_endpoints lf i n w
  unfolding Gnix.fini_endpoints Gnix.free_ep_res fini_endpoints free_ep_res
  fini_endpoints-same i zero w = refl
  fini_endpoints-same i (suc n) w = fini_endpoints-same (suc i) n _

  -- The same as `auth_key_fini-init`, when in between as much was closed as was opened.
  pub auth_key_fini_after-live :
      (num_ranks : ℕ) (w used : World)
      → succeeded (init_gnix_prov lf num_ranks w).0 ≡ true
      → live used ≡ live (init_gnix_prov lf num_ranks w).1
      → live (fini_gnix_prov lf num_ranks true true true used) ≡ live w
  unfolding fini_gnix_prov Gnix.fini_gnix_prov
  auth_key_fini_after-live num_ranks w used s e =
      let same = init_gnix_prov-same num_ranks w in
      let inits = ap (λ (p : ℤ × World). live p.1) same in
      let finis =
        ap
          (λ w'.
            live
              (lf.call (Call.close Handle.fab)
                (lf.call (Call.close Handle.dom) (lf.call (Call.close Handle.av) w').1).1).1)
          (fini_endpoints-same 0 num_ranks used) in
      finis
      ∙ Lifecycle.fini_after-live lf closes num_ranks w used
          (ap (λ (p : ℤ × World). succeeded p.0) (sym same) ∙ s) (e ∙ inits)

  -- `fini_gnix_prov` after an `init_gnix_prov` that succeeded leaves open exactly what was open
  -- before, while `fi_close` succeeds.
  pub auth_key_fini-init :
      (num_ranks : ℕ) (w : World)
      → succeeded (init_gnix_prov lf num_ranks w).0 ≡ true
      → live (fini_gnix_prov lf num_ranks true true true (init_gnix_prov lf num_ranks w).1) ≡ live w
  auth_key_fini-init num_ranks w s = auth_key_fini_after-live num_ranks w _ s refl
