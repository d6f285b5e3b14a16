-- ===== src/Fabric/Pingpong.antt =====
-- performance/multi-node/rdm_pingpong.c: the set-up of the fabric and of the resources of each thread, and
-- their end. Memory and the messages on stderr are left out.
pub mod Lifecycle
pub mod Main
use cray_tests.Prelude.{ℕ, ◌+◌, ◌-◌, ◌*◌, ◌/◌, Bool, if◌then◌else◌}
use cray_tests.Fabric.Libfabric.{Libfabric, Handle, Call, ℤ, pos, negsuc, is_value}
use cray_tests.Fabric.Ends.{Code, return, attempt, close_then}

-- The address in `s_buf_original` or `r_buf_original` where the buffer starts.
unfoldable pub align_buf : ℕ → ℕ → ℕ
align_buf original align_size = (original + (align_size - 1)) / align_size * align_size

module _ (lf : Libfabric) where
  open lf use {World, call}

  unfoldable pub free_ep_res : ℕ → World → World
  free_ep_res i w =
      let av_closed = (call (Call.close (Handle.thread_av i)) w).1 in
      let rcq_closed = (call (Call.close (Handle.rcq i)) av_closed).1 in
      (call (Call.close (Handle.scq i)) rcq_closed).1

  unfoldable pub alloc_ep_res : ℕ → Code lf
  alloc_ep_res i =
      let err2 : ℤ → Code lf = λ ret. close_then lf (Handle.scq i) (return lf ret) in
      let err3 : ℤ → Code lf = λ ret. close_then lf (Handle.rcq i) (err2 ret) in
      attempt lf (call (Call.open' (Handle.scq i))) (return lf) (
        attempt lf (call (Call.open' (Handle.rcq i))) err2
          (attempt lf (call (Call.open' (Handle.thread_av i))) err3 (return lf (pos 0))))

  -- `FI_TRANSMIT` and `FI_RECV`
  abbrev transmit : ℕ
  transmit = 2048

  abbrev recv : ℕ
  recv = 1024

  unfoldable pub bind_ep_res : ℕ → Code lf
  bind_ep_res i =
      attempt lf (call (Call.ep_bind (Handle.ep i) (Handle.scq i) transmit)) (return lf) (
        attempt lf (call (Call.ep_bind (Handle.ep i) (Handle.rcq i) recv)) (return lf) (
          attempt lf (call (Call.ep_bind (Handle.ep i) (Handle.thread_av i) 0)) (return lf)
            (attempt lf (call (Call.enable (Handle.ep i))) (return lf) (return lf (pos 0)))))

  unfoldable pub init_fabric : Code lf
  init_fabric = attempt lf (call Call.getinfo) (return lf) (
      attempt lf (call (Call.open' Handle.fab)) (return lf) (
        attempt lf (call (Call.open' Handle.dom)) (λ ret. close_then lf Handle.fab (return lf ret))
          (return lf (pos 0))))

  -- Each error also closes the domain.
  unfoldable pub init_endpoint : ℕ → Code lf
  unfolding alloc_ep_res bind_ep_res free_ep_res
  init_endpoint i =
      let err3 : ℤ → Code lf = λ ret. close_then lf Handle.dom (return lf ret) in
      let err4 : ℤ → Code lf = λ ret. close_then lf (Handle.ep i) (err3 ret) in
      let err5 : ℤ → Code lf = λ ret w. err4 ret (free_ep_res i w) in
      attempt lf (call (Call.open' (Handle.ep i))) err3
        (attempt lf (alloc_ep_res i) err4 (attempt lf (bind_ep_res i) err5 (return lf (pos 0))))

  -- A code other than `numprocs` is returned, also 0.
  unfoldable pub init_av : ℕ → ℕ → Code lf
  init_av i numprocs w =
      let addrlen_known = (call (Call.getname (Handle.ep i)) w).1 in
      attempt lf (call (Call.getname (Handle.ep i))) (return lf)
        (λ named.
          let (ret, inserted) = call (Call.av_insert (Handle.thread_av i) numprocs) named in
          if is_value numprocs ret then (pos 0, inserted) else (ret, inserted))
        addrlen_known

  unfoldable pub init_per_thread_data : ℕ → ℕ → Code lf
  unfolding init_endpoint init_av
  init_per_thread_data i numprocs =
      attempt lf (init_endpoint i) (return lf)
        (attempt lf (init_av i numprocs) (return lf) (return lf (pos 0)))

  -- Which of `ptd->l_mr` and `ptd->r_mr` are not NULL.
  unfoldable pub fini_per_thread_data : ℕ → Bool → Bool → World → World
  unfolding free_ep_res
  fini_per_thread_data i has_l_mr has_r_mr w =
      let l_mr_closed = if has_l_mr then (call (Call.close (Handle.l_mr i)) w).1 else w in
      let r_mr_closed =
        if has_r_mr then (call (Call.close (Handle.r_mr i)) l_mr_closed).1 else l_mr_closed in
      (call (Call.close (Handle.ep i)) (free_ep_res i r_mr_closed)).1
