-- ===== src/Fabric/OneSided/Lifecycle.antt =====
-- performance/multi-node/rdm_one_sided.c: what is open after each step of the set-up, and that
-- `fini_per_thread_data` closes all that `init_per_thread_data` opened.
use cray_tests.Prelude.{
  ℕ, ◌+◌, ◌*◌, ◌≤◌, ◌<◌, ◌≡◌, inl, inr, refl, ◌∙◌, true, false, List, ◌∷◌, Bool-cases, arith,
}
use cray_tests.Fabric.Libfabric.{Libfabric, Handle, Call, ℤ, is_value, succeeded, remove}
use cray_tests.Fabric.Ends.{
  Closes, Ends, open-Ends, call-Ends, attempt-Ends, success-Ends, error-Ends, close-Ends,
  live-closed, Opens, Opens-attempt,
}
use cray_tests.Fabric.Align.{round_up}
use cray_tests.Fabric.OneSided.{
  free_ep_res, alloc_ep_res, bind_ep_res, init_fabric, init_endpoint, init_av, init_per_thread_data,
  fini_per_thread_data, align_buf,
}

-- The buffer starts at a multiple of the page size that is less than a page after the start of the
-- memory for it.
pub align_buf_lem :
    (original align_size : ℕ)
    → 0 < align_size
    → ((k : ℕ) × (align_buf original align_size ≡ k * align_size))
      × (original ≤ align_buf original align_size)
      × (align_buf original align_size < original + align_size)
unfolding align_buf
align_buf_lem = round_up

module _ (lf : Libfabric) (closes : Closes lf) where
  open lf use {World, call, live, live-close, live-keeps}

  live-removed :
      (h : Handle) (w : World) (l : List Handle)
      → live w ≡ l
      → live (call (Call.close h) w).1 ≡ remove h l
  live-removed h w l e = live-close h w ∙ rw (closes h w, e) refl

  pub free_ep_res-live :
      (i : ℕ) (w : World) (l : List Handle)
      → live w ≡ Handle.thread_av i ∷ Handle.rcq i ∷ Handle.scq i ∷ l
      → live (free_ep_res lf i w) ≡ l
  unfolding free_ep_res
  free_ep_res-live i w l e =
      live-closed lf closes (Handle.scq i) _ l (
        live-closed lf closes (Handle.rcq i) _ _ (live-closed lf closes (Handle.thread_av i) w _ e))

  alloc_ep_res-Ends :
      (i : ℕ) (w : World) (l : List Handle)
      → live w ≡ l
      → Ends lf (Handle.thread_av i ∷ Handle.rcq i ∷ Handle.scq i ∷ l) l (alloc_ep_res lf i w)
  unfolding alloc_ep_res
  alloc_ep_res-Ends i w l e =
      attempt-Ends lf _ _ _ _ _ _ _ _ (open-Ends lf (Handle.scq i) w l e)
        (λ w1 e1.
          attempt-Ends lf _ _ _ _ _ _ _ _ (open-Ends lf (Handle.rcq i) w1 _ e1)
            (λ w2 e2.
              attempt-Ends lf _ _ _ _ _ _ _ _ (open-Ends lf (Handle.thread_av i) w2 _ e2)
                (λ w3 e3. success-Ends lf _ _ _ e3)
                (λ ret w3 s e3.
                  close-Ends lf closes _ _ (Handle.scq i) ret _ s
                    (live-closed lf closes (Handle.rcq i) w3 _ e3)))
            (close-Ends lf closes _ _ (Handle.scq i)))
        (error-Ends lf _ _)

  bind_ep_res-Ends :
      (i : ℕ) (w : World) (l : List Handle) → live w ≡ l → Ends lf l l (bind_ep_res lf i w)
  unfolding bind_ep_res
  bind_ep_res-Ends i w l e =
      attempt-Ends lf _ _ _ _ _ _ _ _ (call-Ends lf _ w l refl e)
        (λ w1 e1.
          attempt-Ends lf _ _ _ _ _ _ _ _ (call-Ends lf _ w1 l refl e1)
            (λ w2 e2.
              attempt-Ends lf _ _ _ _ _ _ _ _ (call-Ends lf _ w2 l refl e2)
                (λ w3 e3.
                  attempt-Ends lf _ _ _ _ _ _ _ _ (call-Ends lf _ w3 l refl e3)
                    (λ w4 e4. success-Ends lf _ _ _ e4) (error-Ends lf _ _))
                (error-Ends lf _ _))
            (error-Ends lf _ _))
        (error-Ends lf _ _)

  -- `init_fabric` opens the fabric and the domain, or returns an error with neither open, while
  -- `fi_close` succeeds.
  pub init_fabric-Ends :
      (w : World) (l : List Handle)
      → live w ≡ l
      → Ends lf (Handle.dom ∷ Handle.fab ∷ l) l (init_fabric lf w)
  unfolding init_fabric
  init_fabric-Ends w l e =
      attempt-Ends lf _ _ _ _ _ _ _ _ (call-Ends lf Call.getinfo w l refl e)
        (λ w1 e1.
          attempt-Ends lf _ _ _ _ _ _ _ _ (open-Ends lf Handle.fab w1 l e1)
            (λ w2 e2.
              attempt-Ends lf _ _ _ _ _ _ _ _ (open-Ends lf Handle.dom w2 _ e2)
                (λ w3 e3. success-Ends lf _ _ _ e3) (close-Ends lf closes _ _ Handle.fab))
            (error-Ends lf _ _))
        (error-Ends lf _ _)

  -- On an error `init_endpoint` has closed what it opened and the domain as well, which all threads
  -- use; else it has opened the endpoint, its two queues and its address vector.
  pub init_endpoint-closes_domain :
      (i : ℕ) (w : World) (l : List Handle)
      → live w ≡ l
      → Ends lf
          (Handle.thread_av i ∷ Handle.rcq i ∷ Handle.scq i ∷ Handle.ep i ∷ l)
          (remove Handle.dom l)
          (init_endpoint lf i w)
  unfolding init_endpoint
  init_endpoint-closes_domain i w l e =
      attempt-Ends lf _ _ _ _ _ _ _ _ (open-Ends lf (Handle.ep i) w l e)
        (λ w1 e1.
          attempt-Ends lf _ _ _ _ _ _ _ _ (alloc_ep_res-Ends i w1 _ e1)
            (λ w2 e2.
              attempt-Ends lf _ _ _ _ _ _ _ _ (bind_ep_res-Ends i w2 _ e2)
                (λ w3 e3. success-Ends lf _ _ _ e3)
                (λ ret w3 s e3.
                  dom_closed ret _ s
                    (live-closed lf closes (Handle.ep i) _ l (free_ep_res-live i w3 _ e3))))
            (λ ret w2 s e2. dom_closed ret _ s (live-closed lf closes (Handle.ep i) w2 l e2)))
        dom_closed
    where
      dom_closed :
          (ret : ℤ) (w' : World)
          → succeeded ret ≡ false
          → live w' ≡ l
          → Ends lf
              (Handle.thread_av i ∷ Handle.rcq i ∷ Handle.scq i ∷ Handle.ep i ∷ l)
              (remove Handle.dom l)
              (ret, (call (Call.close Handle.dom) w').1)
      dom_closed ret w' s e' = error-Ends lf _ _ ret _ s (live-removed Handle.dom w' l e')

  pub init_av-Ends :
      (i numprocs : ℕ) (w : World) (l : List Handle)
      → live w ≡ l
      → Ends lf l l (init_av lf i numprocs w)
  unfolding init_av Ends
  init_av-Ends i numprocs w l e =
      attempt-Ends lf _ _ _ _ _ _ _ _
        (call-Ends lf (Call.getname (Handle.ep i)) _ l refl
          (live-keeps (Call.getname (Handle.ep i)) w refl ∙ e))
        (λ named e1.
          let kept = live-keeps (Call.av_insert (Handle.thread_av i) numprocs) named refl ∙ e1 in
          elim (Bool-cases
            (is_value numprocs (call (Call.av_insert (Handle.thread_av i) numprocs) named).0)) [
              | inl v ↦ rw v (inl (refl, kept))
              | inr v ↦
                  rw v
                    (elim (Bool-cases
                      (succeeded (call (Call.av_insert (Handle.thread_av i) numprocs) named).0)) [
                        | inl s ↦ inl (s, kept)
                        | inr s ↦ inr (s, kept)
                      ])
            ])
        (error-Ends lf _ _)

  pub init_per_thread_data-Opens :
      (i numprocs : ℕ) (w : World)
      → Opens lf
          (Handle.l_mr i
            ∷ Handle.r_mr i
            ∷ Handle.thread_av i
            ∷ Handle.rcq i
            ∷ Handle.scq i
            ∷ Handle.ep i
            ∷ live w)
          (init_per_thread_data lf i numprocs w)
  unfolding init_per_thread_data
  init_per_thread_data-Opens i numprocs w =
      Opens-attempt lf (init_endpoint lf i) _ _ w _ _ _ (λ _ _ f _ t. absurd (cc))
        (init_endpoint-closes_domain i w (live w) refl)
        (λ w1 e1.
          Opens-attempt lf _ _ _ w1 _ _ _ (λ _ _ f _ t. absurd (cc))
            (init_av-Ends i numprocs w1 _ e1)
            (λ w2 e2.
              Opens-attempt lf _ _ _ w2 _ _ _ (λ _ _ _ _ t. absurd (ground arith))
                (open-Ends lf (Handle.r_mr i) w2 _ e2)
                (λ w3 e3.
                  Opens-attempt lf _ _ _ w3 _ _ _ (λ _ _ _ _ t. absurd (ground arith))
                    (open-Ends lf (Handle.l_mr i) w3 _ e3) (λ w4 e4 _. e4))))

  -- `fini_per_thread_data` after an `init_per_thread_data` that succeeded leaves open exactly what
  -- was open before, while `fi_close` succeeds.
  pub fini_per_thread_data-init :
      (i numprocs : ℕ) (w : World)
      → succeeded (init_per_thread_data lf i numprocs w).0 ≡ true
      → live (fini_per_thread_data lf i (init_per_thread_data lf i numprocs w).1) ≡ live w
  unfolding fini_per_thread_data
  fini_per_thread_data-init i numprocs w s = live-closed lf closes (Handle.ep i) _ (live w) (
      free_ep_res-live i _ _ (
        live-closed lf closes (Handle.r_mr i) _ _
          (live-closed lf closes (Handle.l_mr i) _ _ (init_per_thread_data-Opens i numprocs w s))))
