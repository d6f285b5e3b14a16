-- ===== src/RandomAccess/Registration/Exchange.antt =====
-- performance/multi-node/random_access.c: `exchange_registration_data` by all ranks over the
-- collectives of common/ct_utils.c.
use cray_tests.Prelude.{ℕ, ◌+◌, ◌*◌, ◌^◌, ◌<◌, ◌≡◌, refl, arith, List, Outcome, ok, ◌>>=◌, inr}
use cray_tests.Pmi.Store.{Pmi}
use cray_tests.Pmi.Allgather.{Kept, buffers_cnt}
use cray_tests.Pmi.Allgather.Order.{kept_ranks, IsKept}
use cray_tests.RandomAccess.Registration.{
  Registered, PeerData, set_each, set_table_key, set_lock_key, set_table_addr, set_lock_addr,
  exchange_registration_data,
}
use cray_tests.RandomAccess.Registration.Words.{
  Gather, IsGather, gather_words, gather_words-refines,
}

-- How the four gathers are run.
pub record Gathers : Type 0 where
  pub table_keys : Gather
  pub lock_keys : Gather
  pub table_addrs : Gather
  pub lock_addrs : Gather

-- What the ranks have registered are `uint64_t`s and addresses of 64 bits.
pub record AreWords (ranks : ℕ → Registered) : Type 0 where
  pub table_key : (r : ℕ) → (ranks r).table_key < 2 ^ 64
  pub lock_key : (r : ℕ) → (ranks r).lock_key < 2 ^ 64
  pub table_addr : (r : ℕ) → (ranks r).table_addr < 2 ^ 64
  pub lock_addr : (r : ℕ) → (ranks r).lock_addr < 2 ^ 64

module _ (pmi : Pmi) where
  open pmi use {Store, barrier, value_max}

  -- One gather, the loop that stores its values in `peers`, and the call of `ctpm_Barrier` after it.
  unfoldable pub exchange_one :
      ℕ
      → ℕ
      → (ℕ → ℕ)
      → (ℕ → PeerData → PeerData)
      → Gather
      → List PeerData
      → Kept
      → Store
      → Outcome (List PeerData × Kept × Store)
  unfolding gather_words set_each
  exchange_one cnt n values f g peers kept s =
      gather_words pmi cnt n values g kept s
      >>= (λ (list, known, later). ok (set_each f list peers, known, barrier later))

  -- `exchange_registration_data`, when the next call of `PMI_Allgather` has number `cnt`.
  unfoldable pub exchange :
      ℕ
      → ℕ
      → (ℕ → Registered)
      → Gathers
      → List PeerData
      → Kept
      → Store
      → Outcome (List PeerData × Kept × Store)
  unfolding exchange_one
  exchange cnt n ranks g peers kept s =
      let next = buffers_cnt pmi cnt kept in
      exchange_one cnt n (λ r. (ranks r).table_key) set_table_key g.table_keys peers kept
        (barrier s)
      >>= (λ (p1, k1, s1).
          exchange_one (next + 1) n (λ r. (ranks r).lock_key) set_lock_key g.lock_keys p1 k1 s1
          >>= (λ (p2, k2, s2).
              exchange_one (next + 2) n (λ r. (ranks r).table_addr) set_table_addr g.table_addrs p2
                k2 s2
              >>= (λ (p3, k3, s3).
                  exchange_one (next + 3) n (λ r. (ranks r).lock_addr) set_lock_addr g.lock_addrs p3
                    k3 (barrier s3))))

  -- `exchange_registration_data` over the store of PMI leaves in `peers` what it leaves when each
  -- gather gives the values of all ranks at once, whatever the orders in which the ranks send and
  -- whatever they are ahead with, and keeps the ranks for later calls. The numbers of calls and
  -- of ranks and the size of the arrays fit an `int`, and the values fit the store.
  pub exchange-refines :
      (cnt n : ℕ) (ranks : ℕ → Registered) (g : Gathers) (peers : List PeerData) (kept : Kept)
      (s : Store)
      → AreWords ranks
      → 16 < value_max
      → cnt + 5 < 2 ^ 31
      → n * 8 < 2 ^ 31
      → IsGather pmi n (buffers_cnt pmi cnt kept) g.table_keys
      → IsGather pmi n (buffers_cnt pmi cnt kept + 1) g.lock_keys
      → IsGather pmi n (buffers_cnt pmi cnt kept + 2) g.table_addrs
      → IsGather pmi n (buffers_cnt pmi cnt kept + 3) g.lock_addrs
      → IsKept pmi n kept
      → (later : Store) × (exchange cnt n ranks g peers kept s
          ≡ ok (exchange_registration_data n ranks peers, kept_ranks pmi n, later))
  unfolding exchange exchange_one exchange_registration_data
  exchange-refines cnt n ranks g peers kept s words v hc h g1 g2 g3 g4 is_kept =
      let small : buffers_cnt pmi cnt kept + 4 < 2 ^ 31 = ground arith in
      let (s1, e1) =
        gather_words-refines pmi cnt n (λ r. (ranks r).table_key) g.table_keys kept (barrier s)
          words.table_key v (omega arith) h g1 is_kept in
      let (s2, e2) =
        gather_words-refines pmi (buffers_cnt pmi cnt kept + 1) n (λ r. (ranks r).lock_key)
          g.lock_keys (kept_ranks pmi n) (barrier s1) words.lock_key v (omega arith) h g2
          (inr refl) in
      let (s3, e3) =
        gather_words-refines pmi (buffers_cnt pmi cnt kept + 2) n (λ r. (ranks r).table_addr)
          g.table_addrs (kept_ranks pmi n) (barrier s2) words.table_addr v (omega arith) h g3
          (inr refl) in
      let (s4, e4) =
        gather_words-refines pmi (buffers_cnt pmi cnt kept + 3) n (λ r. (ranks r).lock_addr)
          g.lock_addrs (kept_ranks pmi n) (barrier (barrier s3)) words.lock_addr v (omega arith) h
          g4 (inr refl) in
      (barrier s4, rw (e1, e2, e3, e4) refl)
