-- ===== src/Pmi/Gather.antt =====
-- common/ct_utils.c: `PMI_Allgather` and `PMI_Bcast` give every rank the buffers that were sent,
-- in whatever order the ranks arrive.
use mathlib.Core.List.{Memᴰ}
use cray_tests.Prelude.{
  ℕ, zero, suc, ◌+◌, ◌*◌, ◌^◌, ◌<◌, ◌≤◌, ◌≡◌, inl, inr, refl, ap, ◌∙◌, arith, ◌==◌, Bool-cases,
  List, [], ◌∷◌, length, take, drop, length-take-drop, ok,
}
use cray_tests.Pmi.Encoding.{IsBytes}
use cray_tests.Pmi.Key.{key, allg, bcst, idstr, length-key}
use cray_tests.Pmi.Store.{Pmi}
use cray_tests.Pmi.Message.{stored, gni_pmi_send-stored, gni_pmi_receive-settled}
use cray_tests.Pmi.Collective.{
  allgather_receive, receive_loop, bcast_send, bcast_receive, send_all, Send, run_ahead, gathered,
}
use cray_tests.Pmi.Published.{
  Buffers, Below, AreOther, Settled, published-own, send_all-Published, run_ahead-settled,
}

module _ (pmi : Pmi) where
  open pmi use {
    Store, value_max, barrier, published, settled, published-put, settled-put, settled-barrier,
  }

  receive_loop-gathered :
      (cnt i n len : ℕ) (src : ℕ → List ℕ) (targ : List ℕ) (s : Store)
      → length targ ≡ n * len
      → ((r : ℕ)
          → i ≤ r
          → r < i + n
          → Settled pmi allg cnt src r s × (length (src r) ≡ len) × IsBytes (src r))
      → receive_loop pmi (idstr allg cnt) i n targ len s ≡ ok (gathered src i n)
  unfolding receive_loop gathered
  receive_loop-gathered cnt i zero len src [] s l h = refl
  receive_loop-gathered cnt i zero len src (c ∷ targ) s l h = absurd (omega arith)
  receive_loop-gathered cnt i (suc n) len src targ s l h =
      let (e, le, b) = h i (omega arith) (omega arith) in
      let (front, back) = length-take-drop {0} len (n * len) targ (omega arith) in
      let block =
        gni_pmi_receive-settled pmi (idstr allg cnt) i (src i) (take len targ) len s e b le front in
      let blocks =
        receive_loop-gathered cnt (suc i) n len src (drop len targ) s back
          (λ r lo hi. h r (omega arith) (omega arith)) in
      rw (block, blocks) refl

  -- Whatever order the ranks send in, once all have sent and passed the barrier, every rank
  -- collects the buffers of all ranks in rank order, also after ranks that are ahead have sent for
  -- later calls; nothing is aborted. The numbers of calls and ranks fit an `int`, the values fit
  -- the store.
  pub allgather_lem :
      (cnt nranks len : ℕ) (src : ℕ → List ℕ) (order : List ℕ) (ahead : List Send) (targ : List ℕ)
      (s : Store)
      → cnt < 2 ^ 31
      → nranks < 2 ^ 31
      → 2 * len < value_max
      → Buffers src nranks len
      → Below nranks order
      → ((r : ℕ) → r < nranks → Memᴰ r order)
      → AreOther pmi allg cnt ahead
      → length targ ≡ nranks * len
      → (sent : Store) × (later : Store) × (send_all pmi cnt src order s ≡ ok sent)
        × (run_ahead pmi ahead (barrier sent) ≡ ok later)
        × (allgather_receive pmi cnt nranks targ len later ≡ ok (gathered src 0 nranks))
  unfolding allgather_receive
  allgather_lem cnt nranks len src order ahead targ s hc hn v b low every others l =
      let (sent, run, holds) = send_all-Published pmi cnt nranks len src order s hc hn v b low in
      let (later, run', same) =
        run_ahead-settled pmi allg cnt ahead (barrier sent) refl hc others in
      (
        sent,
        later,
        run,
        run',
        receive_loop-gathered cnt 0 nranks len src targ later l (λ r _ lt.
            let below : r < nranks = omega arith in
            (
              same r (omega arith)
                  ∙ settled-barrier sent (key (idstr allg cnt) r)
                  ∙ holds r below (inl (every r below)),
              (b r below).0,
              (b r below).1,
            )),
      )

  -- Once rank 0 has sent and passed the barrier, every rank ends with rank 0's buffer.
  pub bcast_lem :
      (cnt my_rank len : ℕ) (buf mine : List ℕ) (s : Store)
      → cnt < 2 ^ 31
      → 2 * len < value_max
      → length buf ≡ len
      → IsBytes buf
      → length mine ≡ len
      → (my_rank ≡ 0 → mine ≡ buf)
      → (sent : Store) × (bcast_send pmi 0 cnt buf s ≡ ok sent)
        × (bcast_receive pmi my_rank cnt mine len (barrier sent) ≡ ok buf)
  unfolding bcast_send bcast_receive
  bcast_lem cnt my_rank len buf mine s hc v l b lm own =
      let sent =
        gni_pmi_send-stored pmi 0 (idstr bcst cnt) buf s
          (length-key bcst cnt 0 refl hc (omega arith)) (omega arith) in
      let e =
        settled-barrier (stored pmi 0 (idstr bcst cnt) buf s) (key (idstr bcst cnt) 0)
        ∙ published-own pmi (idstr bcst cnt) 0 buf s (length-key bcst cnt 0 refl hc (omega arith))
            (omega arith) in
      let read =
        gni_pmi_receive-settled pmi (idstr bcst cnt) 0 buf mine len
          (barrier (stored pmi 0 (idstr bcst cnt) buf s)) e b l lm in
      (
        stored pmi 0 (idstr bcst cnt) buf s,
        sent,
        elim (Bool-cases (my_rank == 0)) [
          | inl z ↦ rw z (ap ok (own (ground arith)))
          | inr n ↦ rw n read
        ],
      )
