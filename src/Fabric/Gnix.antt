-- ===== src/Fabric/Gnix.antt =====
-- performance/multi-node/random_access.c: the set-up of the provider, with one endpoint and two completion
-- queues for each rank, and its end. Memory, the fields set to NULL and the messages on stderr are
-- left out.
pub mod Lifecycle
pub mod Main
use cray_tests.Prelude.{ℕ, zero, suc, Bool, if◌then◌else◌}
use cray_tests.Fabric.Libfabric.{Libfabric, Handle, Call, ℤ, pos, succeeded, is_value}
use cray_tests.Fabric.Ends.{Code, return, attempt, close_then}

module _ (lf : Libfabric) where
  open lf use {World, call}

  unfoldable pub free_ep_res : ℕ → World → World
  free_ep_res remote_rank w =
      let rcq_closed = (call (Call.close (Handle.rcq remote_rank)) w).1 in
      (call (Call.close (Handle.scq remote_rank)) rcq_closed).1

  unfoldable pub alloc_ep_res : ℕ → Code lf
  alloc_ep_res remote_rank = attempt lf (call (Call.open' (Handle.scq remote_rank))) (return lf) (
      attempt lf (call (Call.open' (Handle.rcq remote_rank)))
        (λ ret. close_then lf (Handle.scq remote_rank) (return lf ret)) (return lf (pos 0)))

  -- `FI_TRANSMIT` and `FI_RECV`
  abbrev transmit : ℕ
  transmit = 2048

  abbrev recv : ℕ
  recv = 1024

  unfoldable pub bind_ep_res : ℕ → Code lf
  bind_ep_res remote_rank =
      let p_ep = Handle.ep remote_rank in
      attempt lf (call (Call.ep_bind p_ep (Handle.scq remote_rank) transmit)) (return lf) (
        attempt lf (call (Call.ep_bind p_ep (Handle.rcq remote_rank) recv)) (return lf) (
          attempt lf (call (Call.ep_bind p_ep Handle.av 0)) (return lf)
            (attempt lf (call (Call.enable p_ep)) (return lf) (return lf (pos 0)))))

  unfoldable pub init_fabric : Code lf
  init_fabric = attempt lf (call Call.getinfo) (return lf) (
      attempt lf (call (Call.open' Handle.fab)) (return lf) (
        attempt lf (call (Call.open' Handle.dom)) (λ ret. close_then lf Handle.fab (return lf ret))
          (return lf (pos 0))))

  unfoldable pub init_endpoint : ℕ → Code lf
  unfolding alloc_ep_res bind_ep_res free_ep_res
  init_endpoint remote_rank =
      let err_alloc_ep_res : ℤ → Code lf =
        λ ret. close_then lf (Handle.ep remote_rank) (return lf ret) in
      let err_bind_ep_res : ℤ → Code lf =
        λ ret w. err_alloc_ep_res ret (free_ep_res remote_rank w) in
      attempt lf (call (Call.open' (Handle.ep remote_rank))) (return lf) (
        attempt lf (alloc_ep_res remote_rank) err_alloc_ep_res
          (attempt lf (bind_ep_res remote_rank) err_bind_ep_res (return lf (pos 0))))

  -- `i` is the first rank that has an endpoint. A code other than `num_ranks` is returned, also 0.
  unfoldable pub init_av : ℕ → ℕ → Code lf
  init_av num_ranks i w =
      let addrlen_known = (call (Call.getname (Handle.ep i)) w).1 in
      attempt lf (call (Call.getname (Handle.ep i))) (return lf)
        (λ named.
          let (ret, inserted) = call (Call.av_insert Handle.av num_ranks) named in
          if is_value num_ranks ret then (pos 0, inserted) else (ret, inserted))
        addrlen_known

  -- The loop over the endpoints, from rank `i` on with `n` ranks left.
  unfoldable pub init_endpoints : ℕ → ℕ → Code lf → Code lf
  unfolding init_endpoint
  init_endpoints i zero next = next
  init_endpoints i (suc n) next =
      attempt lf (init_endpoint i) (return lf) (init_endpoints (suc i) n next)

  -- All endpoints are open when the addresses are exchanged, so the first one is that of rank 0.
  unfoldable pub init_gnix_prov : ℕ → Code lf
  unfolding init_fabric init_endpoints init_av
  init_gnix_prov num_ranks = attempt lf init_fabric (return lf) (
      attempt lf (call (Call.open' Handle.av)) (return lf) (
        init_endpoints 0 num_ranks
          (attempt lf (init_av num_ranks 0) (return lf) (return lf (pos 0)))))

  unfoldable pub fini_endpoints : ℕ → ℕ → World → World
  unfolding free_ep_res
  fini_endpoints i zero w = w
  fini_endpoints i (suc n) w =
      fini_endpoints (suc i) n (call (Call.close (Handle.ep i)) (free_ep_res i w)).1

  -- Which of `fabric->av`, `fabric->dom` and `fabric->fab` are not NULL.
  unfoldable pub fini_gnix_prov : ℕ → Bool → Bool → Bool → World → World
  unfolding fini_endpoints
  fini_gnix_prov num_ranks has_av has_dom has_fab w =
      let eps_closed = fini_endpoints 0 num_ranks w in
      let av_closed = if has_av then (call (Call.close Handle.av) eps_closed).1 else eps_closed in
      let dom_closed = if has_dom then (call (Call.close Handle.dom) av_closed).1 else av_closed in
      if has_fab then (call (Call.close Handle.fab) dom_closed).1 else dom_closed
