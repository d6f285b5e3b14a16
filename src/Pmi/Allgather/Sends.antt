-- ===== src/Pmi/Allgather/Sends.antt =====
-- common/ct_utils.c: the sends of a call of `PMI_Allgather`, also as those of ranks that are ahead.
use cray_tests.Prelude.{
  ℕ, ◌*◌, ◌^◌, ◌<◌, ◌≡◌, ◌≢◌, inr, refl, sym, ap, ◌∙◌, arith, List, [], ◌∷◌, ◌++◌, ◌>>=◌,
  bind_assoc,
}
use cray_tests.Pmi.Key.{allg, idstr}
use cray_tests.Pmi.Store.{Pmi}
use cray_tests.Pmi.Message.{gni_pmi_send}
use cray_tests.Pmi.Collective.{allgather_send, send_all, Send, run_ahead}
use cray_tests.Pmi.Published.{Buffers, Below, AreOther}

module _ (pmi : Pmi) where
  open pmi use {Store, barrier, value_max}

  -- The sends of a call, as those of ranks that are ahead.
  abbrev pub sends_of : ℕ → (ℕ → List ℕ) → List ℕ → List Send
  sends_of cnt src [] = []
  sends_of cnt src (r ∷ ranks) = (allg, cnt, r, src r) ∷ sends_of cnt src ranks

  pub send_all-run_ahead :
      (cnt : ℕ) (src : ℕ → List ℕ) (ranks : List ℕ) (s : Store)
      → send_all pmi cnt src ranks s ≡ run_ahead pmi (sends_of cnt src ranks) s
  unfolding send_all run_ahead allgather_send
  send_all-run_ahead cnt src [] s = refl
  send_all-run_ahead cnt src (r ∷ ranks) s =
      ap (λ f. gni_pmi_send pmi r (idstr allg cnt) (src r) s >>= f)
        (λ j s'. send_all-run_ahead cnt src ranks s' j)

  pub sends_of-AreOther :
      (cnt cnt' n len : ℕ) (src : ℕ → List ℕ) (ranks : List ℕ)
      → cnt ≢ cnt'
      → cnt' < 2 ^ 31
      → n < 2 ^ 31
      → 2 * len < value_max
      → Buffers src n len
      → Below n ranks
      → AreOther pmi allg cnt (sends_of cnt' src ranks)
  sends_of-AreOther cnt cnt' n len src [] ne hc hn v b low = tt
  sends_of-AreOther cnt cnt' n len src (r ∷ ranks) ne hc hn v b (lt, low) = (
    refl,
    hc,
    omega arith,
    omega (arith, (b r lt).0),
    inr ne,
    sends_of-AreOther cnt cnt' n len src ranks ne hc hn v b low,
  )

  pub send_all-append :
      (cnt : ℕ) (src : ℕ → List ℕ) (early late : List ℕ) (s : Store)
      → send_all pmi cnt src (early ++ late) s
        ≡ send_all pmi cnt src early s >>= send_all pmi cnt src late
  unfolding send_all allgather_send
  send_all-append cnt src [] late s = refl
  send_all-append cnt src (r ∷ early) late s =
      ap (λ f. allgather_send pmi r cnt (src r) s >>= f)
        (λ j s'. send_all-append cnt src early late s' j)
      ∙ sym (
          bind_assoc (allgather_send pmi r cnt (src r) s) (send_all pmi cnt src early)
            (send_all pmi cnt src late))
