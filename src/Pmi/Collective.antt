-- ===== src/Pmi/Collective.antt =====
-- common/ct_utils.c: `PMI_Allgather` and `PMI_Bcast`, each in two halves around its first barrier.
-- The ranks send in any order, and a rank that has left the barrier may already have sent under
-- the keys of later calls while another one still reads.
use cray_tests.Prelude.{
  ℕ, zero, suc, ◌==◌, if◌then◌else◌, List, [], ◌∷◌, ◌++◌, take, drop, Outcome, ok, ◌>>=◌,
}
use cray_tests.Pmi.Key.{allg, bcst, idstr}
use cray_tests.Pmi.Store.{Pmi, Text}
use cray_tests.Pmi.Message.{gni_pmi_send, gni_pmi_receive}

-- A send of a later call: of which kind, its number, the rank and the buffer.
abbrev pub Send : Type 0
Send = Text × ℕ × ℕ × List ℕ

module _ (pmi : Pmi) where
  open pmi use {Store, barrier}

  -- `PMI_Allgather` before its barrier: `cnt` is the number of the call.
  unfoldable pub allgather_send : ℕ → ℕ → List ℕ → Store → Outcome Store
  allgather_send my_rank cnt src s = gni_pmi_send pmi my_rank (idstr allg cnt) src s

  -- Its loop over the ranks, from rank `i` on with `n` ranks left; `targ` starts at `ptr`.
  unfoldable pub receive_loop : Text → ℕ → ℕ → List ℕ → ℕ → Store → Outcome (List ℕ)
  receive_loop kvs i zero targ len s = ok targ
  receive_loop kvs i (suc n) targ len s =
      let rest = receive_loop kvs (suc i) n (drop len targ) len s in
      do
        block ← gni_pmi_receive pmi kvs i (take len targ) len s
        blocks ← rest
        ok (block ++ blocks)

  -- `PMI_Allgather` after its barrier.
  unfoldable pub allgather_receive : ℕ → ℕ → List ℕ → ℕ → Store → Outcome (List ℕ)
  unfolding receive_loop
  allgather_receive cnt nranks targ len s = receive_loop (idstr allg cnt) 0 nranks targ len s

  -- `PMI_Bcast` before and after its first barrier, and the buffer it leaves.
  unfoldable pub bcast_send : ℕ → ℕ → List ℕ → Store → Outcome Store
  bcast_send my_rank cnt buf s =
      if my_rank == 0 then gni_pmi_send pmi my_rank (idstr bcst cnt) buf s else ok s

  unfoldable pub bcast_receive : ℕ → ℕ → List ℕ → ℕ → Store → Outcome (List ℕ)
  bcast_receive my_rank cnt buf len s =
      if my_rank == 0 then ok buf else gni_pmi_receive pmi (idstr bcst cnt) 0 buf len s

  -- The sends of the ranks of a list, each of its own buffer.
  unfoldable pub send_all : ℕ → (ℕ → List ℕ) → List ℕ → Store → Outcome Store
  unfolding allgather_send
  send_all cnt src [] s = ok s
  send_all cnt src (r ∷ ranks) s = allgather_send r cnt (src r) s >>= send_all cnt src ranks

  unfoldable pub run_ahead : List Send → Store → Outcome Store
  run_ahead [] s = ok s
  run_ahead ((name, cnt, rank, buf) ∷ sends) s =
      gni_pmi_send pmi rank (idstr name cnt) buf s >>= run_ahead sends

-- What the buffers of the ranks from `i` on are, one after the other.
unfoldable pub gathered : (ℕ → List ℕ) → ℕ → ℕ → List ℕ
gathered src i zero = []
gathered src i (suc n) = src i ++ gathered src (suc i) n
