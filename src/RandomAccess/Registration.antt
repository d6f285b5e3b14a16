-- ===== src/RandomAccess/Registration.antt =====
-- performance/multi-node/random_access.c: `exchange_registration_data`, by which a rank learns where
-- the tables and the locks of the others are. `ctpm_Allgather` gives what the ranks sent, in their
-- order.
pub mod Words
pub mod Exchange
use cray_tests.Prelude.{
  ℕ, zero, suc, ◌+◌, ◌<◌, ◌≡◌, refl, ap, ◌∙◌, arith, some, List, [], ◌∷◌, length, get_elem?,
}

-- What a rank has registered.
pub record Registered : Type 0 where
  pub table_addr : ℕ
  pub table_key : ℕ
  pub lock_addr : ℕ
  pub lock_key : ℕ

-- `struct peer_data`
pub record PeerData : Type 0 where
  pub r_table_addr : ℕ
  pub r_table_key : ℕ
  pub r_lock_addr : ℕ
  pub r_lock_key : ℕ

-- The values of the `n` ranks from `i` on.
unfoldable pub ctpm_allgather : (ℕ → ℕ) → ℕ → ℕ → List ℕ
ctpm_allgather values i zero = []
ctpm_allgather values i (suc n) = values i ∷ ctpm_allgather values (suc i) n

-- `for (i = 0; i < num_ranks; i++) peers[i].data.f = values[i];`
unfoldable pub set_each : (ℕ → PeerData → PeerData) → List ℕ → List PeerData → List PeerData
set_each f [] peers = peers
set_each f (v ∷ values) [] = []
set_each f (v ∷ values) (p ∷ peers) = f v p ∷ set_each f values peers

abbrev pub set_table_key : ℕ → PeerData → PeerData
set_table_key v p = record p { r_table_key = v }

abbrev pub set_lock_key : ℕ → PeerData → PeerData
set_lock_key v p = record p { r_lock_key = v }

abbrev pub set_table_addr : ℕ → PeerData → PeerData
set_table_addr v p = record p { r_table_addr = v }

abbrev pub set_lock_addr : ℕ → PeerData → PeerData
set_lock_addr v p = record p { r_lock_addr = v }

-- The four exchanges, one after the other.
unfoldable pub exchange_registration_data : ℕ → (ℕ → Registered) → List PeerData → List PeerData
unfolding ctpm_allgather set_each
exchange_registration_data num_ranks ranks peers =
    let table_keys = ctpm_allgather (λ r. (ranks r).table_key) 0 num_ranks in
    let lock_keys = ctpm_allgather (λ r. (ranks r).lock_key) 0 num_ranks in
    let table_addrs = ctpm_allgather (λ r. (ranks r).table_addr) 0 num_ranks in
    let lock_addrs = ctpm_allgather (λ r. (ranks r).lock_addr) 0 num_ranks in
    let with_table_keys = set_each set_table_key table_keys peers in
    let with_lock_keys = set_each set_lock_key lock_keys with_table_keys in
    let with_table_addrs = set_each set_table_addr table_addrs with_lock_keys in
    set_each set_lock_addr lock_addrs with_table_addrs

-- What the peers are to hold.
abbrev pub peer_of : Registered → PeerData
peer_of r = record {
  r_table_addr = r.table_addr;
  r_table_key = r.table_key;
  r_lock_addr = r.lock_addr;
  r_lock_key = r.lock_key;
}

length-set_each :
    (f : ℕ → PeerData → PeerData) (values : List ℕ) (peers : List PeerData)
    → length (set_each f values peers) ≡ length peers
unfolding set_each
length-set_each f [] peers = refl
length-set_each f (v ∷ values) [] = refl
length-set_each f (v ∷ values) (p ∷ peers) = ap suc (length-set_each f values peers)

-- One exchange changes the entry of each rank.
get_elem?-set_each :
    (f : ℕ → PeerData → PeerData) (values : ℕ → ℕ) (first n i : ℕ) (peers : List PeerData)
    (p : PeerData)
    → i < n
    → get_elem? peers i ≡ some p
    → get_elem? (set_each f (ctpm_allgather values first n) peers) i
      ≡ some (f (values (first + i)) p)
unfolding set_each ctpm_allgather
get_elem?-set_each f values first zero i peers p lt e = absurd (omega arith)
get_elem?-set_each f values first (suc n) i [] p lt e = absurd (cc)
get_elem?-set_each f values first (suc n) zero (q ∷ peers) p lt e =
    let here : first + 0 ≡ first = omega arith in rw here (cc)
get_elem?-set_each f values first (suc n) (suc i) (q ∷ peers) p lt e =
    get_elem?-set_each f values (suc first) n i peers p (omega arith) e
    ∙ ap (λ k. some (f (values k) p)) (omega arith)

-- After the exchange every rank's entry of `peers` holds the keys and the addresses of that rank,
-- whatever stood there before.
pub get_elem?-exchange_registration_data :
    (num_ranks rank : ℕ) (ranks : ℕ → Registered) (peers : List PeerData) (before : PeerData)
    → rank < num_ranks
    → get_elem? peers rank ≡ some before
    → get_elem? (exchange_registration_data num_ranks ranks peers) rank
      ≡ some (peer_of (ranks rank))
unfolding exchange_registration_data
get_elem?-exchange_registration_data num_ranks rank ranks peers before lt e =
    let table_keys =
      get_elem?-set_each set_table_key (λ r. (ranks r).table_key) 0 num_ranks rank peers before lt
        e in
    let lock_keys =
      get_elem?-set_each set_lock_key (λ r. (ranks r).lock_key) 0 num_ranks rank _ _ lt
        table_keys in
    let table_addrs =
      get_elem?-set_each set_table_addr (λ r. (ranks r).table_addr) 0 num_ranks rank _ _ lt
        lock_keys in
    let all =
      get_elem?-set_each set_lock_addr (λ r. (ranks r).lock_addr) 0 num_ranks rank _ _ lt
        table_addrs in
    let same : 0 + rank ≡ rank = omega arith in rw same at all
