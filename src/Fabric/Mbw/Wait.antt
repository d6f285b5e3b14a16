-- ===== src/Fabric/Mbw/Wait.antt =====
-- performance/multi-node/rdm_mbw_mr.c: `wait_for_comp`, on a completion queue or on a counter.
use cray_tests.Prelude.{
  ℕ, zero, suc, ◌+◌, ◌≡◌, Bool, true, false, Option, none, some, List, [], ◌∷◌, leb, if◌then◌else◌,
}
use cray_tests.Fabric.Libfabric.{ℤ, pos, negsuc}
use cray_tests.Fabric.Completion.{is_eagain}

pub data WaitType : Type 0 where
  wait_none : WaitType
  wait_unspec : WaitType
  wait_set : WaitType

-- What the calls of one turn of the loop return, those that it makes: `fi_cq_sread` or `fi_cq_read`,
-- `fi_cntr_read`, `fi_cntr_wait` and `fi_wait`.
pub record Turn : Type 0 where
  pub cq_read : ℤ
  pub cntr_read : ℕ
  pub cntr_wait : ℤ
  pub wait : ℤ

-- How a turn of the loop ends: with a completion less to wait for, with nothing, or with a code.
pub data TurnEnd : Type 0 where
  took : TurnEnd
  again : TurnEnd
  returns : ℤ → TurnEnd

abbrev pub timed_out : ℤ → TurnEnd
timed_out (pos n) = TurnEnd.again
timed_out (negsuc e) = TurnEnd.returns (negsuc e)

-- The end of the body: the waits on the wait set, and the test of their return code.
unfoldable pub turn_end : WaitType → ℤ → ℤ → TurnEnd
turn_end WaitType.wait_none ret waited = TurnEnd.again
turn_end WaitType.wait_unspec ret waited = timed_out ret
turn_end WaitType.wait_set ret waited = timed_out waited

-- A turn with CQ_TEST.
unfoldable pub cq_turn : WaitType → ℤ → ℤ → TurnEnd
unfolding turn_end
cq_turn wait_type (pos zero) waited = turn_end wait_type (pos 0) waited
cq_turn wait_type (pos (suc k)) waited = TurnEnd.took
cq_turn wait_type (negsuc e) waited =
    if is_eagain e then turn_end wait_type (negsuc e) waited else TurnEnd.returns (negsuc e)

-- A turn with CNTR_TEST: the counter must reach the number.
abbrev cntr_ret : WaitType → ℤ → ℤ
cntr_ret WaitType.wait_unspec waited = waited
cntr_ret _ waited = pos 0

unfoldable pub cntr_turn : WaitType → ℕ → Turn → TurnEnd
unfolding turn_end
cntr_turn wait_type n turn =
    if leb n turn.cntr_read
    then TurnEnd.returns (pos 0)
    else turn_end wait_type (cntr_ret wait_type turn.cntr_wait) turn.wait

-- `wait_for_comp` with CQ_TEST, over the turns that are left; `none` while the loop still runs.
unfoldable pub wait_cq : WaitType → ℕ → List Turn → Option (ℤ × List Turn)
wait_cq wait_type zero turns = some (pos 0, turns)
wait_cq wait_type (suc n) [] = none
wait_cq wait_type (suc n) (turn ∷ turns) =
    let same_number = wait_cq wait_type (suc n) turns in
    let one_less = wait_cq wait_type n turns in
    elim (cq_turn wait_type turn.cq_read turn.wait) [
      | TurnEnd.took ↦ one_less
      | TurnEnd.again ↦ same_number
      | TurnEnd.returns ret ↦ some (ret, turns)
    ]

-- `wait_for_comp` with CNTR_TEST.
unfoldable pub wait_cntr : WaitType → ℕ → List Turn → Option (ℤ × List Turn)
wait_cntr wait_type n [] = none
wait_cntr wait_type n (turn ∷ turns) =
    let next = wait_cntr wait_type n turns in
    elim (cntr_turn wait_type n turn) [
      | TurnEnd.took ↦ next
      | TurnEnd.again ↦ next
      | TurnEnd.returns ret ↦ some (ret, turns)
    ]

abbrev pub is_took : TurnEnd → Bool
is_took TurnEnd.took = true
is_took _ = false

abbrev pub is_returned : TurnEnd → Bool
is_returned (TurnEnd.returns ret) = true
is_returned _ = false

-- How many turns read a completion.
unfoldable pub completions : WaitType → List Turn → ℕ
completions wait_type [] = 0
completions wait_type (turn ∷ turns) =
    (if is_took (cq_turn wait_type turn.cq_read turn.wait) then 1 else 0)
    + completions wait_type turns

-- No turn ends the wait.
unfoldable pub AreTurns : WaitType → List Turn → Type 0
AreTurns wait_type [] = Unit {0}
AreTurns wait_type (turn ∷ turns) =
    (is_returned (cq_turn wait_type turn.cq_read turn.wait) ≡ false) × AreTurns wait_type turns
