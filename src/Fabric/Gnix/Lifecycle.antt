-- ===== src/Fabric/Gnix/Lifecycle.antt =====
-- performance/multi-node/random_access.c: what is open after each step of the set-up, and that
-- `fini_gnix_prov` closes all that `init_gnix_prov` opened.
use cray_tests.Prelude.{
  ℕ, zero, suc, ◌≤◌, ◌≡◌, inl, inr, refl, ◌∙◌, true, false, List, ◌∷◌, Bool-cases, arith,
}
use cray_tests.Fabric.Libfabric.{Libfabric, Handle, same, Call, is_value, succeeded, remove}
use cray_tests.Fabric.Ends.{
  Code, Closes, Ends, open-Ends, call-Ends, attempt-Ends, success-Ends, error-Ends, close-Ends,
  live-closed, remove-head, Opens, Opens-attempt,
}
use cray_tests.Fabric.Gnix.{
  free_ep_res, alloc_ep_res, bind_ep_res, init_fabric, init_endpoint, init_av, init_endpoints,
  init_gnix_prov, fini_endpoints, fini_gnix_prov,
}

module _ (lf : Libfabric) (closes : Closes lf) where
  open lf use {World, call, live, live-close, live-keeps}

  free_ep_res-live :
      (r : ℕ) (w : World) (l : List Handle)
      → live w ≡ Handle.rcq r ∷ Handle.scq r ∷ l
      → live (free_ep_res lf r w) ≡ l
  unfolding free_ep_res
  free_ep_res-live r w l e =
      live-closed lf closes (Handle.scq r) _ l
        (live-closed lf closes (Handle.rcq r) w (Handle.scq r ∷ l) e)

  alloc_ep_res-Ends :
      (r : ℕ) (w : World) (l : List Handle)
      → live w ≡ l
      → Ends lf (Handle.rcq r ∷ Handle.scq r ∷ l) l (alloc_ep_res lf r w)
  unfolding alloc_ep_res
  alloc_ep_res-Ends r w l e =
      attempt-Ends lf _ _ _ _ _ _ _ _ (open-Ends lf (Handle.scq r) w l e)
        (λ w1 e1.
          attempt-Ends lf _ _ _ _ _ _ _ _ (open-Ends lf (Handle.rcq r) w1 _ e1)
            (λ w2 e2. success-Ends lf _ _ _ e2) (close-Ends lf closes _ _ (Handle.scq r)))
        (error-Ends lf _ _)

  bind_ep_res-Ends :
      (r : ℕ) (w : World) (l : List Handle) → live w ≡ l → Ends lf l l (bind_ep_res lf r w)
  unfolding bind_ep_res
  bind_ep_res-Ends r w l e =
      attempt-Ends lf _ _ _ _ _ _ _ _ (call-Ends lf _ w l refl e)
        (λ w1 e1.
          attempt-Ends lf _ _ _ _ _ _ _ _ (call-Ends lf _ w1 l refl e1)
            (λ w2 e2.
              attempt-Ends lf _ _ _ _ _ _ _ _ (call-Ends lf _ w2 l refl e2)
                (λ w3 e3.
                  attempt-Ends lf _ _ _ _ _ _ _ _ (call-Ends lf _ w3 l refl e3)
                    (λ w4 e4. success-Ends lf _ _ _ e4) (error-Ends lf _ _))
                (error-Ends lf _ _))
            (error-Ends lf _ _))
        (error-Ends lf _ _)

  init_fabric-Ends :
      (w : World) (l : List Handle)
      → live w ≡ l
      → Ends lf (Handle.dom ∷ Handle.fab ∷ l) l (init_fabric lf w)
  unfolding init_fabric
  init_fabric-Ends w l e =
      attempt-Ends lf _ _ _ _ _ _ _ _ (call-Ends lf Call.getinfo w l refl e)
        (λ w1 e1.
          attempt-Ends lf _ _ _ _ _ _ _ _ (open-Ends lf Handle.fab w1 l e1)
            (λ w2 e2.
              attempt-Ends lf _ _ _ _ _ _ _ _ (open-Ends lf Handle.dom w2 _ e2)
                (λ w3 e3. success-Ends lf _ _ _ e3) (close-Ends lf closes _ _ Handle.fab))
            (error-Ends lf _ _))
        (error-Ends lf _ _)

  -- `init_endpoint` opens the endpoint of the rank and its two queues, or returns an error with all
  -- closed that it had opened, while `fi_close` succeeds.
  pub init_endpoint-Ends :
      (r : ℕ) (w : World) (l : List Handle)
      → live w ≡ l
      → Ends lf (Handle.rcq r ∷ Handle.scq r ∷ Handle.ep r ∷ l) l (init_endpoint lf r w)
  unfolding init_endpoint
  init_endpoint-Ends r w l e =
      attempt-Ends lf _ _ _ _ _ _ _ _ (open-Ends lf (Handle.ep r) w l e)
        (λ w1 e1.
          attempt-Ends lf _ _ _ _ _ _ _ _ (alloc_ep_res-Ends r w1 _ e1)
            (λ w2 e2.
              attempt-Ends lf _ _ _ _ _ _ _ _ (bind_ep_res-Ends r w2 _ e2)
                (λ w3 e3. success-Ends lf _ _ _ e3)
                (λ ret w3 s e3.
                  close-Ends lf closes _ _ (Handle.ep r) ret _ s (free_ep_res-live r w3 _ e3)))
            (close-Ends lf closes _ _ (Handle.ep r)))
        (error-Ends lf _ _)

  -- What is open once the endpoints of `n` ranks from `i` on are, above `l`.
  abbrev opened : ℕ → ℕ → List Handle → List Handle
  opened i zero l = l
  opened i (suc n) l = opened (suc i) n (Handle.rcq i ∷ Handle.scq i ∷ Handle.ep i ∷ l)

  -- The handle is none of those of the ranks from `i` on.
  abbrev Apart : Handle → ℕ → Type 0
  Apart h i =
      (j : ℕ)
      → i ≤ j
      → (same h (Handle.rcq j) ≡ false)
        × (same h (Handle.scq j) ≡ false)
        × (same h (Handle.ep j) ≡ false)

  remove-opened :
      (h : Handle) (i n : ℕ) (l l' : List Handle)
      → Apart h i
      → remove h l ≡ l'
      → remove h (opened i n l) ≡ opened i n l'
  remove-opened h i zero l l' apart e = e
  remove-opened h i (suc n) l l' apart e =
      let (a, b, c) = apart i (omega arith) in
      remove-opened h (suc i) n _ _ (λ j le. apart j (omega arith)) (rw (a, b, c, e) refl)

  live-removed :
      (h : Handle) (w : World) (l : List Handle)
      → live w ≡ l
      → live (call (Call.close h) w).1 ≡ remove h l
  live-removed h w l e = live-close h w ∙ rw (closes h w, e) refl

  init_endpoints-Opens :
      (i n : ℕ) (next : Code lf) (w : World) (l base : List Handle)
      → live w ≡ l
      → ((w' : World) → live w' ≡ opened i n l → Opens lf base (next w'))
      → Opens lf base (init_endpoints lf i n next w)
  unfolding init_endpoints
  init_endpoints-Opens i zero next w l base e h = h w e
  init_endpoints-Opens i (suc n) next w l base e h =
      Opens-attempt lf (init_endpoint lf i) _ _ w _ _ base (λ _ _ f _ t. absurd (cc))
        (init_endpoint-Ends i w l e) (λ w' e'. init_endpoints-Opens (suc i) n next w' _ base e' h)

  init_av-Ends :
      (num_ranks i : ℕ) (w : World) (l : List Handle)
      → live w ≡ l
      → Ends lf l l (init_av lf num_ranks i w)
  unfolding init_av Ends
  init_av-Ends num_ranks i w l e =
      attempt-Ends lf _ _ _ _ _ _ _ _
        (call-Ends lf (Call.getname (Handle.ep i)) _ l refl
          (live-keeps (Call.getname (Handle.ep i)) w refl ∙ e))
        (λ named e1.
          let kept = live-keeps (Call.av_insert Handle.av num_ranks) named refl ∙ e1 in
          elim (Bool-cases
            (is_value num_ranks (call (Call.av_insert Handle.av num_ranks) named).0)) [
              | inl v ↦ rw v (inl (refl, kept))
              | inr v ↦
                  rw v
                    (elim (Bool-cases
                      (succeeded (call (Call.av_insert Handle.av num_ranks) named).0)) [
                        | inl s ↦ inl (s, kept)
                        | inr s ↦ inr (s, kept)
                      ])
            ])
        (error-Ends lf _ _)

  init_gnix_prov-Opens :
      (num_ranks : ℕ) (w : World)
      → Opens lf
          (opened 0 num_ranks (Handle.av ∷ Handle.dom ∷ Handle.fab ∷ live w))
          (init_gnix_prov lf num_ranks w)
  unfolding init_gnix_prov
  init_gnix_prov-Opens num_ranks w =
      Opens-attempt lf (init_fabric lf) _ _ w _ _ _ (λ _ _ f _ t. absurd (cc))
        (init_fabric-Ends w (live w) refl)
        (λ w1 e1.
          Opens-attempt lf _ _ _ w1 _ _ _ (λ _ _ f _ t. absurd (cc))
            (open-Ends lf Handle.av w1 _ e1)
            (λ w2 e2. init_endpoints-Opens 0 num_ranks _ w2 _ _ e2 (λ w3 e3.
              Opens-attempt lf (init_av lf num_ranks 0) _ _ w3 _ _ _ (λ _ _ f _ t. absurd (cc))
                (init_av-Ends num_ranks 0 w3 _ e3) (λ w4 e4 _. e4))))

  fini_endpoints-live :
      (i n : ℕ) (w : World) (l : List Handle)
      → live w ≡ opened i n l
      → live (fini_endpoints lf i n w) ≡ l
  unfolding fini_endpoints free_ep_res
  fini_endpoints-live i zero w l e = e
  fini_endpoints-live i (suc n) w l e =
      let after_rcq =
        live-removed (Handle.rcq i) w _ e
        ∙ remove-opened (Handle.rcq i) (suc i) n _ _ (λ j le. (ground arith, refl, refl))
            (remove-head (Handle.rcq i) _) in
      let after_scq =
        live-removed (Handle.scq i) _ _ after_rcq
        ∙ remove-opened (Handle.scq i) (suc i) n _ _ (λ j le. (refl, ground arith, refl))
            (remove-head (Handle.scq i) _) in
      let after_ep =
        live-removed (Handle.ep i) _ _ after_scq
        ∙ remove-opened (Handle.ep i) (suc i) n _ _ (λ j le. (refl, refl, ground arith))
            (remove-head (Handle.ep i) _) in
      fini_endpoints-live (suc i) n _ l after_ep

  -- The same as `fini_gnix_prov-init_gnix_prov`, when in between as much was closed as was opened.
  pub fini_after-live :
      (num_ranks : ℕ) (w used : World)
      → succeeded (init_gnix_prov lf num_ranks w).0 ≡ true
      → live used ≡ live (init_gnix_prov lf num_ranks w).1
      → live (fini_gnix_prov lf num_ranks true true true used) ≡ live w
  unfolding fini_gnix_prov
  fini_after-live num_ranks w used s e =
      let eps_closed =
        fini_endpoints-live 0 num_ranks used _ (e ∙ init_gnix_prov-Opens num_ranks w s) in
      live-closed lf closes Handle.fab _ (live w)
        (live-closed lf closes Handle.dom _ _ (live-closed lf closes Handle.av _ _ eps_closed))

  -- `fini_gnix_prov` after an `init_gnix_prov` that succeeded leaves open exactly what was open
  -- before, while `fi_close` succeeds.
  pub fini_gnix_prov-init_gnix_prov :
      (num_ranks : ℕ) (w : World)
      → succeeded (init_gnix_prov lf num_ranks w).0 ≡ true
      → live (fini_gnix_prov lf num_ranks true true true (init_gnix_prov lf num_ranks w).1) ≡ live w
  fini_gnix_prov-init_gnix_prov num_ranks w s = fini_after-live num_ranks w _ s refl
