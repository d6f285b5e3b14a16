-- ===== src/Fabric/Mbw/Setup.antt =====
-- performance/multi-node/rdm_mbw_mr.c: what is open after the set-up with completion queues.
use cray_tests.Prelude.{◌≡◌, ◌⊎◌, inl, inr, refl, ◌∙◌, false, List, ◌∷◌}
use cray_tests.Fabric.Libfabric.{Libfabric, Handle, Call, ℤ, pos, succeeded, remove}
use cray_tests.Fabric.Ends.{
  close_then, Code, return, attempt, Closes, Ends, open-Ends, call-Ends, attempt-Ends,
  attempt-cases, success-Ends, error-Ends, close-Ends, live-closed,
}
use cray_tests.Fabric.Mbw.{
  TestType, ep, scq, rcq, free_ep_res, err2, err3, open_by_type, alloc_ep_res, bind_by_type,
  bind_ep_res, init_fabric,
}

module _ (lf : Libfabric) (closes : Closes lf) where
  open lf use {World, call, live, live-close}

  live-removed :
      (h : Handle) (w : World) (l : List Handle)
      → live w ≡ l
      → live (call (Call.close h) w).1 ≡ remove h l
  live-removed h w l e = live-close h w ∙ rw (closes h w, e) refl

  -- What is opened after the wait set is closed again at an error.
  open_by_type-Ends :
      (w : World) (l : List Handle)
      → live w ≡ l
      → Ends lf (Handle.av ∷ rcq ∷ scq ∷ l) l (
          open_by_type lf TestType.cq_test
            (attempt lf (call (Call.open' Handle.av)) (err3 lf) (return lf (pos 0)))
            w)
  unfolding open_by_type err2 err3
  open_by_type-Ends w l e =
      attempt-Ends lf _ _ _ _ _ _ _ _ (open-Ends lf scq w l e)
        (λ w1 e1.
          attempt-Ends lf _ _ _ _ _ _ _ _ (open-Ends lf rcq w1 _ e1)
            (λ w2 e2.
              attempt-Ends lf _ _ _ _ _ _ _ _ (open-Ends lf Handle.av w2 _ e2)
                (λ w3 e3. success-Ends lf _ _ _ e3)
                (λ ret w3 s e3.
                  close-Ends lf closes _ _ scq ret _ s (live-closed lf closes rcq w3 _ e3)))
            (close-Ends lf closes _ _ scq))
        (error-Ends lf _ _)

  bind_ep_res-Ends :
      (w : World) (l : List Handle) → live w ≡ l → Ends lf l l (bind_ep_res lf TestType.cq_test w)
  unfolding bind_ep_res bind_by_type
  bind_ep_res-Ends w l e =
      attempt-Ends lf _ _ _ _ _ _ _ _ (call-Ends lf _ w l refl e)
        (λ w1 e1.
          attempt-Ends lf _ _ _ _ _ _ _ _ (call-Ends lf _ w1 l refl e1)
            (λ w2 e2.
              attempt-Ends lf _ _ _ _ _ _ _ _ (call-Ends lf _ w2 l refl e2)
                (λ w3 e3.
                  attempt-Ends lf _ _ _ _ _ _ _ _ (call-Ends lf _ w3 l refl e3)
                    (λ w4 e4. success-Ends lf _ _ _ e4) (error-Ends lf _ _))
                (error-Ends lf _ _))
            (error-Ends lf _ _))
        (error-Ends lf _ _)

  free_ep_res-live :
      (w : World) (l : List Handle)
      → live w ≡ Handle.av ∷ rcq ∷ scq ∷ l
      → live (free_ep_res lf TestType.cq_test w) ≡ l
  unfolding free_ep_res
  free_ep_res-live w l e =
      live-closed lf closes scq _ l
        (live-closed lf closes rcq _ _ (live-closed lf closes Handle.av w _ e))

  alloc_ep_res-Ends :
      (w : World) (l : List Handle)
      → live w ≡ l
      → Ends lf (Handle.av ∷ rcq ∷ scq ∷ Handle.waitset ∷ l) l (alloc_ep_res lf TestType.cq_test w)
        ⊎ Ends lf
            (Handle.av ∷ rcq ∷ scq ∷ Handle.waitset ∷ l)
            (Handle.waitset ∷ l)
            (alloc_ep_res lf TestType.cq_test w)
  unfolding alloc_ep_res
  alloc_ep_res-Ends w l e =
      attempt-cases lf
        (λ p.
          Ends lf (Handle.av ∷ rcq ∷ scq ∷ Handle.waitset ∷ l) l p
          ⊎ Ends lf (Handle.av ∷ rcq ∷ scq ∷ Handle.waitset ∷ l) (Handle.waitset ∷ l) p)
        _ _ _ w _ _ (open-Ends lf Handle.waitset w l e) (λ w1 e1. inr (open_by_type-Ends w1 _ e1))
        (λ ret w1 s e1. inl (error-Ends lf _ _ ret w1 s e1))

  abbrev pub resources : List Handle → List Handle
  resources l = Handle.av ∷ rcq ∷ scq ∷ Handle.waitset ∷ ep ∷ Handle.dom ∷ Handle.fab ∷ l

  -- All is open, or nothing more than before, or of all that was opened the wait set is left.
  abbrev pub EndsOrLeaks : List Handle → ℤ × World → Type 0
  EndsOrLeaks l p = Ends lf (resources l) l p ⊎ Ends lf (resources l) (Handle.waitset ∷ l) p

  -- The labels that close the endpoint, the domain and the fabric, with the wait set open.
  waitset_left :
      (ret : ℤ) (w : World) (l : List Handle)
      → succeeded ret ≡ false
      → live w ≡ Handle.waitset ∷ ep ∷ Handle.dom ∷ Handle.fab ∷ l
      → Ends lf (resources l) (Handle.waitset ∷ l) (
        ret,
        (call
            (Call.close Handle.fab)
            (call (Call.close Handle.dom) (call (Call.close ep) w).1).1).1,
      )
  waitset_left ret w l s e =
      error-Ends lf _ _ ret _ s
        (live-removed Handle.fab _ _ (live-removed Handle.dom _ _ (live-removed ep w _ e)))

  -- The end of `init_fabric`: its labels from that of the endpoint on, and its last two steps.
  abbrev ep_err : ℤ → Code lf
  ep_err ret =
      close_then lf ep (close_then lf Handle.dom (close_then lf Handle.fab (return lf ret)))

  abbrev bound_code : Code lf
  bound_code =
      attempt lf (bind_ep_res lf TestType.cq_test)
        (λ ret w. ep_err ret (free_ep_res lf TestType.cq_test w)) (return lf (pos 0))

  bound_code-EndsOrLeaks :
      (w : World) (l : List Handle) → live w ≡ resources l → EndsOrLeaks l (bound_code w)
  bound_code-EndsOrLeaks w l e =
      attempt-cases lf (EndsOrLeaks l) _ _ _ w _ _ (bind_ep_res-Ends w _ e)
        (λ w1 e1. inl (success-Ends lf _ _ w1 e1))
        (λ ret w1 s e1. inr (waitset_left ret _ l s (free_ep_res-live w1 _ e1)))

  allocated_code-EndsOrLeaks :
      (w : World) (l : List Handle)
      → live w ≡ ep ∷ Handle.dom ∷ Handle.fab ∷ l
      → EndsOrLeaks l (attempt lf (alloc_ep_res lf TestType.cq_test) ep_err bound_code w)
  allocated_code-EndsOrLeaks w l e = elim (alloc_ep_res-Ends w _ e) [
    | inl ends ↦
        attempt-cases lf (EndsOrLeaks l) _ _ _ w _ _ ends (λ w1. bound_code-EndsOrLeaks w1 l)
          (λ ret w1 s e1. inl (
            close-Ends lf closes _ _ Handle.fab ret _ s
              (live-closed lf closes Handle.dom _ _ (live-closed lf closes ep w1 _ e1))))
    | inr ends ↦
        attempt-cases lf (EndsOrLeaks l) _ _ _ w _ _ ends (λ w1. bound_code-EndsOrLeaks w1 l)
          (λ ret w1 s e1. inr (waitset_left ret w1 l s e1))
  ]

  -- `init_fabric` with completion queues opens all it needs, or returns an error; of what it opened
  -- then nothing is left open, or the wait set alone, while `fi_close` succeeds.
  pub init_fabric-EndsOrLeaks :
      (w : World) (l : List Handle) → live w ≡ l → EndsOrLeaks l (init_fabric lf TestType.cq_test w)
  unfolding init_fabric
  init_fabric-EndsOrLeaks w l e =
      attempt-cases lf (EndsOrLeaks l) _ _ _ w _ _ (call-Ends lf Call.getinfo w l refl e)
        (λ w1 e1.
          attempt-cases lf (EndsOrLeaks l) _ _ _ w1 _ _ (open-Ends lf Handle.fab w1 l e1)
            (λ w2 e2.
              attempt-cases lf (EndsOrLeaks l) _ _ _ w2 _ _ (open-Ends lf Handle.dom w2 _ e2)
                (λ w3 e3.
                  attempt-cases lf (EndsOrLeaks l) _ _ _ w3 _ _ (open-Ends lf ep w3 _ e3)
                    (λ w4 e4. allocated_code-EndsOrLeaks w4 l e4)
                    (λ ret w4 s e4. inl (
                      close-Ends lf closes _ _ Handle.fab ret _ s
                        (live-closed lf closes Handle.dom w4 _ e4))))
                (λ ret w3 s e3. inl (close-Ends lf closes _ _ Handle.fab ret w3 s e3)))
            (λ ret w2 s e2. inl (error-Ends lf _ _ ret w2 s e2)))
        (λ ret w1 s e1. inl (error-Ends lf _ _ ret w1 s e1))
