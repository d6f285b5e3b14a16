-- ===== src/Fabric/Mbw/Bandwidth/Pairing.antt =====
-- performance/multi-node/rdm_mbw_mr.c: the ranks of `calc_bw` pass the same number of barriers, and
-- the two ranks of a pair post a receive for each message that the other one sends.
use cray_tests.Prelude.{
  ℕ, zero, suc, ◌+◌, ◌-◌, ◌*◌, ◌<◌, ◌≡◌, ◌≢◌, refl, arith, Bool, true, false, Bool-cases, inl, inr,
  List, [], ◌∷◌, ◌++◌, ◌==◌, ltb, if◌then◌else◌, ok,
}
use cray_tests.Fabric.Mbw.Bandwidth.{
  SendRecvType, Event, times, posted, iterations, loop_count, skip_count, sender_body,
  receiver_body, calc_bw, waited,
}

-- How many events of a list satisfy a test.
unfoldable pub count : (Event → Bool) → List Event → ℕ
count p [] = 0
count p (e ∷ events) = (if p e then 1 else 0) + count p events

abbrev pub is_barrier : Event → Bool
is_barrier Event.barrier = true
is_barrier _ = false

abbrev pub is_send : ℕ → Event → Bool
is_send n (Event.send m) = m == n
is_send n _ = false

abbrev pub is_recv : ℕ → Event → Bool
is_recv n (Event.recv m) = m == n
is_recv n _ = false

pub count-append :
    (p : Event → Bool) (xs ys : List Event) → count p (xs ++ ys) ≡ count p xs + count p ys
unfolding count
count-append p [] ys = omega arith
count-append p (x ∷ xs) ys = omega (arith, count-append p xs ys)

-- The same numbers of events in each part give the same numbers in the whole.
module _ (p q : Event → Bool) where
  count-times :
      (n : ℕ) (xs ys : List Event)
      → count p xs ≡ count q ys
      → count p (times n xs) ≡ count q (times n ys)
  unfolding times count
  count-times zero xs ys e = refl
  count-times (suc n) xs ys e =
      omega (
        arith,
        count-append p xs (times n xs),
        count-append q ys (times n ys),
        count-times n xs ys e,
      )

  count-iterations :
      (i n skip : ℕ) (xs ys : List Event)
      → p Event.barrier ≡ q Event.barrier
      → count p xs ≡ count q ys
      → count p (iterations i n skip xs) ≡ count q (iterations i n skip ys)
  unfolding iterations count
  count-iterations i zero skip xs ys b e = refl
  count-iterations i (suc n) skip xs ys b e =
      let rest = count-iterations (suc i) n skip xs ys b e in
      let parts_p = count-append p xs (iterations (suc i) n skip xs) in
      let parts_q = count-append q ys (iterations (suc i) n skip ys) in
      elim (Bool-cases (i == skip)) [
        | inl s ↦ rw (s, parts_p, parts_q, b, e, rest) refl
        | inr s ↦ rw (s, parts_p, parts_q, e, rest) refl
      ]

-- Two tests that agree on what one side posts and on what the other side posts for it.
abbrev pub Agree : Event → Event → (Event → Bool) → (Event → Bool) → Type 0
Agree a b p q = p a ≡ q b

count-posted :
    (type : SendRecvType) (iov_cnt : ℕ) (a b : Event)
    → type ≢ SendRecvType.fin
    → (xs : List Event) × (ys : List Event) × (posted type iov_cnt a ≡ ok xs)
      × (posted type iov_cnt b ≡ ok ys)
      × ((p q : Event → Bool) → Agree a b p q → count p xs ≡ count q ys)
unfolding posted count
count-posted SendRecvType.send_recv iov_cnt a b type_ok = (
  times iov_cnt (a ∷ []),
  times iov_cnt (b ∷ []),
  refl,
  refl,
  λ p q e. count-times p q iov_cnt (a ∷ []) (b ∷ []) (rw e refl),
)
count-posted SendRecvType.sendv_recvv iov_cnt a b type_ok =
    (a ∷ [], b ∷ [], refl, refl, λ p q e. rw e refl)
count-posted SendRecvType.send_recvv iov_cnt a b type_ok =
    (a ∷ [], b ∷ [], refl, refl, λ p q e. rw e refl)
count-posted SendRecvType.sendv_recv iov_cnt a b type_ok =
    (a ∷ [], b ∷ [], refl, refl, λ p q e. rw e refl)
count-posted SendRecvType.fin iov_cnt a b type_ok = absurd (type_ok refl)

-- The same for the bodies of the two sides, for tests that take no wait.
abbrev pub NoWait : (Event → Bool) → Type 0
NoWait p = (n : ℕ) → (p (Event.wait_sends n) ≡ false) × (p (Event.wait_recvs n) ≡ false)

abbrev pub Matching : ℕ → ℕ → List Event → List Event → Type 0
Matching low high xs ys =
    (p q : Event → Bool)
    → NoWait p
    → NoWait q
    → Agree (Event.send high) (Event.recv low) p q
    → Agree (Event.recv high) (Event.send low) p q
    → count p xs ≡ count q ys

count-bodies :
    (type : SendRecvType) (window_size iov_cnt low high : ℕ)
    → type ≢ SendRecvType.fin
    → (xs : List Event) × (ys : List Event) × (sender_body high window_size iov_cnt type ≡ ok xs)
      × (receiver_body low window_size iov_cnt type ≡ ok ys)
      × Matching low high xs ys
unfolding sender_body receiver_body count
count-bodies type window_size iov_cnt low high type_ok =
    let (a, b, sa, sb, c) = count-posted type iov_cnt (Event.send high) (Event.recv low) type_ok in
    let n = waited type window_size iov_cnt in
    (
      times window_size a ++ Event.wait_sends n ∷ Event.recv high ∷ Event.wait_recvs 1 ∷ [],
      times window_size b ++ Event.wait_recvs n ∷ Event.send low ∷ Event.wait_sends 1 ∷ [],
      rw sa refl,
      rw sb refl,
      λ p q wp wq e f.
          rw
            (
              count-append p (times window_size a)
                  (Event.wait_sends n ∷ Event.recv high ∷ Event.wait_recvs 1 ∷ []),
              count-append q (times window_size b)
                  (Event.wait_recvs n ∷ Event.send low ∷ Event.wait_sends 1 ∷ []),
              count-times p q window_size a b (c p q e),
              (wp n).0,
              (wp 1).1,
              (wq n).1,
              (wq 1).0,
              f,
            )
            refl,
    )

-- The events of a side, with those of its body.
abbrev pub all_events : ℕ → ℕ → List Event → List Event
all_events loop skip body =
    Event.barrier ∷ (iterations 0 (loop + skip) skip body ++ Event.gather ∷ [])

count-all_events :
    (p q : Event → Bool) (loop skip : ℕ) (xs ys : List Event)
    → p Event.barrier ≡ q Event.barrier
    → p Event.gather ≡ q Event.gather
    → count p xs ≡ count q ys
    → count p (all_events loop skip xs) ≡ count q (all_events loop skip ys)
unfolding count
count-all_events p q loop skip xs ys b g e =
    rw
      (
        count-append p (iterations 0 (loop + skip) skip xs) (Event.gather ∷ []),
        count-append q (iterations 0 (loop + skip) skip ys) (Event.gather ∷ []),
        count-iterations p q 0 (loop + skip) skip xs ys b e,
        b,
        g,
      )
      refl

-- What a rank with a partner does, and what the partner does.
pub calc_bw-sides :
    (rank num_pairs window_size iov_cnt cum_size : ℕ) (type : SendRecvType)
    → rank < num_pairs
    → 0 < window_size
    → type ≢ SendRecvType.fin
    → (xs : List Event) × (ys : List Event) × (calc_bw rank num_pairs window_size iov_cnt cum_size
          type
        ≡ ok (all_events (loop_count cum_size window_size) (skip_count cum_size window_size) xs))
      × (calc_bw (rank + num_pairs) num_pairs window_size iov_cnt cum_size type
          ≡ ok (all_events (loop_count cum_size window_size) (skip_count cum_size window_size) ys))
      × Matching rank (rank + num_pairs) xs ys
unfolding calc_bw
calc_bw-sides rank num_pairs window_size iov_cnt cum_size type lt window type_ok =
    let (xs, ys, sx, sy, m) =
      count-bodies type window_size iov_cnt rank (rank + num_pairs) type_ok in
    let some_window : (window_size == 0) ≡ false = ground arith in
    let low : ltb rank num_pairs ≡ true = ground arith in
    let high : ltb (rank + num_pairs) num_pairs ≡ false = ground arith in
    let pair : ltb (rank + num_pairs) (num_pairs * 2) ≡ true = ground arith in
    let back : rank + num_pairs - num_pairs ≡ rank = omega arith in
    (xs, ys, rw (some_window, low, sx) refl, rw (some_window, high, pair, back, sy) refl, m)

-- The two ranks of a pair post a receive for each message that the other one sends, over the whole
-- measurement: the types of the transfers are the four that the program uses, and the window is not
-- empty.
pub calc_bw-pairing :
    (rank num_pairs window_size iov_cnt cum_size : ℕ) (type : SendRecvType)
    → rank < num_pairs
    → 0 < window_size
    → type ≢ SendRecvType.fin
    → (xs : List Event) × (ys : List Event) × (calc_bw rank num_pairs window_size iov_cnt cum_size
          type
        ≡ ok xs)
      × (calc_bw (rank + num_pairs) num_pairs window_size iov_cnt cum_size type ≡ ok ys)
      × (count (is_send (rank + num_pairs)) xs ≡ count (is_recv rank) ys)
      × (count (is_recv (rank + num_pairs)) xs ≡ count (is_send rank) ys)
calc_bw-pairing rank num_pairs window_size iov_cnt cum_size type lt window type_ok =
    let (xs, ys, ex, ey, m) =
      calc_bw-sides rank num_pairs window_size iov_cnt cum_size type lt window type_ok in
    let loop = loop_count cum_size window_size in
    let skip = skip_count cum_size window_size in
    let high = rank + num_pairs in
    (
      all_events loop skip xs,
      all_events loop skip ys,
      ex,
      ey,
      count-all_events (is_send high) (is_recv rank) loop skip xs ys refl refl (
          m (is_send high) (is_recv rank) (λ n. (refl, refl)) (λ n. (refl, refl))
            (same_self high rank) refl),
      count-all_events (is_recv high) (is_send rank) loop skip xs ys refl refl (
          m (is_recv high) (is_send rank) (λ n. (refl, refl)) (λ n. (refl, refl)) refl
            (same_self high rank)),
    )
  where
    same_self : (a b : ℕ) → (a == a) ≡ (b == b)
    same_self a b = ground arith
