-- ===== src/Fabric/Mbw/WaitEnds.antt =====
-- performance/multi-node/rdm_mbw_mr.c: `wait_for_comp` ends when the completions that were asked for
-- have come.
use cray_tests.Prelude.{
  ℕ, zero, suc, ◌≤◌, ◌≡◌, ◌⊎◌, inl, inr, refl, ap, ◌∙◌, arith, false, some, List, [], ◌∷◌, ◌++◌,
}
use cray_tests.Fabric.Libfabric.{pos}
use cray_tests.Fabric.Mbw.Wait.{
  WaitType, Turn, TurnEnd, cq_turn, cntr_turn, wait_cq, wait_cntr, is_returned, completions,
  AreTurns,
}

TurnEnd-cases : (t : TurnEnd) → is_returned t ≡ false → (t ≡ TurnEnd.took) ⊎ (t ≡ TurnEnd.again)
TurnEnd-cases TurnEnd.took h = inl refl
TurnEnd-cases TurnEnd.again h = inr refl
TurnEnd-cases (TurnEnd.returns ret) h = absurd (cc)

completions-took :
    (wait_type : WaitType) (turn : Turn) (turns : List Turn)
    → cq_turn wait_type turn.cq_read turn.wait ≡ TurnEnd.took
    → completions wait_type (turn ∷ turns) ≡ suc (completions wait_type turns)
unfolding completions
completions-took wait_type turn turns e = rw e (omega arith)

completions-again :
    (wait_type : WaitType) (turn : Turn) (turns : List Turn)
    → cq_turn wait_type turn.cq_read turn.wait ≡ TurnEnd.again
    → completions wait_type (turn ∷ turns) ≡ completions wait_type turns
unfolding completions
completions-again wait_type turn turns e = rw e (omega arith)

wait_cq-cons :
    (wait_type : WaitType) (n : ℕ) (turn : Turn) (turns : List Turn)
    → wait_cq wait_type (suc n) (turn ∷ turns) ≡ elim (cq_turn wait_type turn.cq_read turn.wait) [
      | TurnEnd.took ↦ wait_cq wait_type n turns
      | TurnEnd.again ↦ wait_cq wait_type (suc n) turns
      | TurnEnd.returns ret ↦ some (ret, turns)
    ]
unfolding wait_cq
wait_cq-cons wait_type n turn turns = refl

wait_cq-took :
    (wait_type : WaitType) (n : ℕ) (turn : Turn) (turns : List Turn)
    → cq_turn wait_type turn.cq_read turn.wait ≡ TurnEnd.took
    → wait_cq wait_type (suc n) (turn ∷ turns) ≡ wait_cq wait_type n turns
wait_cq-took wait_type n turn turns e = wait_cq-cons wait_type n turn turns ∙ rw e refl

wait_cq-again :
    (wait_type : WaitType) (n : ℕ) (turn : Turn) (turns : List Turn)
    → cq_turn wait_type turn.cq_read turn.wait ≡ TurnEnd.again
    → wait_cq wait_type (suc n) (turn ∷ turns) ≡ wait_cq wait_type (suc n) turns
wait_cq-again wait_type n turn turns e = wait_cq-cons wait_type n turn turns ∙ rw e refl

-- On a queue the wait ends with 0 as soon as the turns have read the completions that were asked
-- for, when none of them ends it with an error.
pub wait_cq_lem :
    (wait_type : WaitType) (n : ℕ) (turns : List Turn)
    → AreTurns wait_type turns
    → n ≤ completions wait_type turns
    → (used : List Turn) × (rest : List Turn) × (wait_cq wait_type n turns ≡ some (pos 0, rest))
      × (turns ≡ used ++ rest)
      × (completions wait_type used ≡ n)
unfolding wait_cq completions AreTurns
wait_cq_lem wait_type zero turns h le = ([], turns, refl, refl, refl)
wait_cq_lem wait_type (suc n) [] h le = absurd (omega arith)
wait_cq_lem wait_type (suc n) (turn ∷ turns) h le =
    elim (TurnEnd-cases (cq_turn wait_type turn.cq_read turn.wait) h.0) [
      | inl e ↦
          let (used, rest, r, split, c) =
            wait_cq_lem wait_type n turns h.1
              (omega (arith, completions-took wait_type turn turns e)) in
          (
            turn ∷ used,
            rest,
            wait_cq-took wait_type n turn turns e ∙ r,
            ap (λ t. turn ∷ t) split,
            completions-took wait_type turn used e ∙ ap suc c,
          )
      | inr e ↦
          let (used, rest, r, split, c) =
            wait_cq_lem wait_type (suc n) turns h.1
              (omega (arith, completions-again wait_type turn turns e)) in
          (
            turn ∷ used,
            rest,
            wait_cq-again wait_type n turn turns e ∙ r,
            ap (λ t. turn ∷ t) split,
            completions-again wait_type turn used e ∙ c,
          )
    ]

-- No turn ends the wait on a counter.
unfoldable pub AreWaits : WaitType → ℕ → List Turn → Type 0
AreWaits wait_type n [] = Unit {0}
AreWaits wait_type n (turn ∷ turns) =
    (is_returned (cntr_turn wait_type n turn) ≡ false) × AreWaits wait_type n turns

cntr_turn-reached :
    (wait_type : WaitType) (n : ℕ) (turn : Turn)
    → n ≤ turn.cntr_read
    → cntr_turn wait_type n turn ≡ TurnEnd.returns (pos 0)
unfolding cntr_turn
cntr_turn-reached wait_type n turn le = ground arith

wait_cntr-cons :
    (wait_type : WaitType) (n : ℕ) (turn : Turn) (turns : List Turn)
    → wait_cntr wait_type n (turn ∷ turns) ≡ elim (cntr_turn wait_type n turn) [
      | TurnEnd.took ↦ wait_cntr wait_type n turns
      | TurnEnd.again ↦ wait_cntr wait_type n turns
      | TurnEnd.returns ret ↦ some (ret, turns)
    ]
unfolding wait_cntr
wait_cntr-cons wait_type n turn turns = refl

-- On a counter the wait ends with 0 at the first turn that reads at least the number, when no turn
-- before it ends the wait with an error.
pub wait_cntr_lem :
    (wait_type : WaitType) (n : ℕ) (used : List Turn) (turn : Turn) (rest : List Turn)
    → AreWaits wait_type n used
    → n ≤ turn.cntr_read
    → wait_cntr wait_type n (used ++ turn ∷ rest) ≡ some (pos 0, rest)
unfolding AreWaits
wait_cntr_lem wait_type n [] turn rest h le =
    wait_cntr-cons wait_type n turn rest ∙ rw (cntr_turn-reached wait_type n turn le) refl
wait_cntr_lem wait_type n (first ∷ used) turn rest h le =
    elim (TurnEnd-cases (cntr_turn wait_type n first) h.0) [
      | inl e ↦
          wait_cntr-cons wait_type n first _
          ∙ rw e (wait_cntr_lem wait_type n used turn rest h.1 le)
      | inr e ↦
          wait_cntr-cons wait_type n first _
          ∙ rw e (wait_cntr_lem wait_type n used turn rest h.1 le)
    ]
