-- ===== src/Fabric/Mbw.antt =====
-- performance/multi-node/rdm_mbw_mr.c: the set-up of the one endpoint of the process, with completion
-- queues or with counters. Memory and the messages on stderr are left out.
pub mod Wait
pub mod WaitEnds
pub mod Setup
pub mod Bandwidth
use cray_tests.Prelude.{ℕ, Bool, if◌then◌else◌}
use cray_tests.Fabric.Libfabric.{Libfabric, Handle, Call, ℤ, pos, is_value}
use cray_tests.Fabric.Ends.{Code, return, attempt, close_then}

-- `enum test_type_e`
pub data TestType : Type 0 where
  cq_test : TestType
  cntr_test : TestType

-- The process has one endpoint and one pair of queues.
abbrev pub ep : Handle
ep = Handle.ep 0

abbrev pub scq : Handle
scq = Handle.scq 0

abbrev pub rcq : Handle
rcq = Handle.rcq 0

module _ (lf : Libfabric) where
  open lf use {World, call}

  unfoldable pub free_ep_res : TestType → World → World
  free_ep_res TestType.cq_test w =
      let av_closed = (call (Call.close Handle.av) w).1 in
      let rcq_closed = (call (Call.close rcq) av_closed).1 in (call (Call.close scq) rcq_closed).1
  free_ep_res TestType.cntr_test w =
      let av_closed = (call (Call.close Handle.av) w).1 in
      let rcntr_closed = (call (Call.close Handle.rcntr) av_closed).1 in
      (call (Call.close Handle.scntr) rcntr_closed).1

  -- The labels close the queues whatever the test type is, and none closes the wait set.
  unfoldable pub err2 : ℤ → Code lf
  err2 ret = close_then lf scq (return lf ret)

  unfoldable pub err3 : ℤ → Code lf
  unfolding err2
  err3 ret = close_then lf rcq (err2 ret)

  -- What is opened between the wait set and the address vector.
  unfoldable pub open_by_type : TestType → Code lf → Code lf
  unfolding err2
  open_by_type TestType.cq_test next =
      attempt lf (call (Call.open' scq)) (return lf) (attempt lf (call (Call.open' rcq)) err2 next)
  open_by_type TestType.cntr_test next =
      attempt lf (call (Call.open' Handle.scntr)) (return lf)
        (attempt lf (call (Call.open' Handle.rcntr)) err2 next)

  unfoldable pub alloc_ep_res : TestType → Code lf
  unfolding open_by_type err3
  alloc_ep_res test_type =
      attempt lf (call (Call.open' Handle.waitset)) (return lf)
        (open_by_type test_type (attempt lf (call (Call.open' Handle.av)) err3 (return lf (pos 0))))

  -- `FI_TRANSMIT`, `FI_RECV` and `FI_SEND | FI_WRITE`
  abbrev transmit : ℕ
  transmit = 2048

  abbrev recv : ℕ
  recv = 1024

  abbrev send_or_write : ℕ
  send_or_write = 2560

  unfoldable pub bind_by_type : TestType → Code lf → Code lf
  bind_by_type TestType.cq_test next =
      attempt lf (call (Call.ep_bind ep scq transmit)) (return lf)
        (attempt lf (call (Call.ep_bind ep rcq recv)) (return lf) next)
  bind_by_type TestType.cntr_test next =
      attempt lf (call (Call.ep_bind ep Handle.scntr send_or_write)) (return lf)
        (attempt lf (call (Call.ep_bind ep Handle.rcntr recv)) (return lf) next)

  unfoldable pub bind_ep_res : TestType → Code lf
  unfolding bind_by_type
  bind_ep_res test_type = bind_by_type test_type (
      attempt lf (call (Call.ep_bind ep Handle.av 0)) (return lf)
        (attempt lf (call (Call.enable ep)) (return lf) (return lf (pos 0))))

  unfoldable pub init_fabric : TestType → Code lf
  unfolding alloc_ep_res bind_ep_res free_ep_res
  init_fabric test_type =
      let fab_err : ℤ → Code lf = λ ret. close_then lf Handle.fab (return lf ret) in
      let dom_err : ℤ → Code lf = λ ret. close_then lf Handle.dom (fab_err ret) in
      let ep_err : ℤ → Code lf = λ ret. close_then lf ep (dom_err ret) in
      let res_err : ℤ → Code lf = λ ret w. ep_err ret (free_ep_res test_type w) in
      attempt lf (call Call.getinfo) (return lf) (
        attempt lf (call (Call.open' Handle.fab)) (return lf) (
          attempt lf (call (Call.open' Handle.dom)) fab_err (
            attempt lf (call (Call.open' ep)) dom_err (
              attempt lf (alloc_ep_res test_type) ep_err
                (attempt lf (bind_ep_res test_type) res_err (return lf (pos 0)))))))

  -- A code other than `numprocs` is returned, also 0.
  unfoldable pub init_av : ℕ → Code lf
  init_av numprocs w =
      let addrlen_known = (call (Call.getname ep) w).1 in
      attempt lf (call (Call.getname ep)) (return lf)
        (λ named.
          let (ret, inserted) = call (Call.av_insert Handle.av numprocs) named in
          if is_value numprocs ret then (pos 0, inserted) else (ret, inserted))
        addrlen_known
