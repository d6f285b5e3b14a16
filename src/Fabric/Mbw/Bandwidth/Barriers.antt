-- ===== src/Fabric/Mbw/Bandwidth/Barriers.antt =====
-- performance/multi-node/rdm_mbw_mr.c: every rank of `calc_bw` passes two barriers.
use cray_tests.Prelude.{
  ℕ, zero, suc, ◌+◌, ◌-◌, ◌*◌, ◌<◌, ◌≤◌, ◌≡◌, ◌≢◌, refl, sym, ap, ◌∙◌, arith, false, Bool-cases,
  inl, inr, dec_lt, List, [], ◌∷◌, ◌==◌, ltb, ok,
}
use cray_tests.Fabric.Mbw.Bandwidth.{
  SendRecvType, Event, iterations, loop_count, skip_count, calc_bw,
}
use cray_tests.Fabric.Mbw.Bandwidth.Pairing.{
  count, is_barrier, count-append, all_events, calc_bw-sides, Matching,
}

no_barriers : (events : List Event) → count (λ e. false) events ≡ 0
unfolding count
no_barriers [] = refl
no_barriers (e ∷ events) = omega (arith, no_barriers events)

-- The loop passes the barrier when the iteration of the first measurement is among its iterations.
count-iterations-before :
    (i n skip : ℕ) (body : List Event)
    → count is_barrier body ≡ 0
    → skip < i
    → count is_barrier (iterations i n skip body) ≡ 0
unfolding iterations count
count-iterations-before i zero skip body none_in h = refl
count-iterations-before i (suc n) skip body none_in h =
    let past : (i == skip) ≡ false = ground arith in
    rw (past, count-append is_barrier body (iterations (suc i) n skip body), none_in)
      (omega (arith, count-iterations-before (suc i) n skip body none_in (omega arith)))

count-iterations-once :
    (i n skip : ℕ) (body : List Event)
    → count is_barrier body ≡ 0
    → i ≤ skip
    → skip < i + n
    → count is_barrier (iterations i n skip body) ≡ 1
unfolding iterations count
count-iterations-once i zero skip body none_in lo hi = absurd (omega arith)
count-iterations-once i (suc n) skip body none_in lo hi = elim (Bool-cases (i == skip)) [
  | inl e ↦
      let rest = count-iterations-before (suc i) n skip body none_in (ground arith) in
      rw (e, count-append is_barrier body (iterations (suc i) n skip body), none_in, rest) refl
  | inr e ↦
      let rest = count-iterations-once (suc i) n skip body none_in (ground arith) (omega arith) in
      rw (e, count-append is_barrier body (iterations (suc i) n skip body), none_in)
        (omega (arith, rest))
]

loop_count-positive : (cum_size window_size : ℕ) → 0 < loop_count cum_size window_size
unfolding loop_count
loop_count-positive cum_size window_size = ground arith

count-all_events-barriers :
    (cum_size window_size : ℕ) (body : List Event)
    → count is_barrier body ≡ 0
    → count is_barrier
        (all_events (loop_count cum_size window_size) (skip_count cum_size window_size) body)
      ≡ 2
unfolding count
count-all_events-barriers cum_size window_size body none_in =
    let loop = loop_count cum_size window_size in
    let skip = skip_count cum_size window_size in
    rw
      (
        count-append is_barrier (iterations 0 (loop + skip) skip body) (Event.gather ∷ []),
        count-iterations-once 0 (loop + skip) skip body none_in (omega arith)
            (omega (arith, loop_count-positive cum_size window_size)),
      )
      refl

-- A rank without a partner.
calc_bw-idle :
    (rank num_pairs window_size iov_cnt cum_size : ℕ) (type : SendRecvType)
    → 0 < window_size
    → num_pairs * 2 ≤ rank
    → calc_bw rank num_pairs window_size iov_cnt cum_size type
      ≡ ok (Event.barrier ∷ Event.barrier ∷ Event.gather ∷ [])
unfolding calc_bw
calc_bw-idle rank num_pairs window_size iov_cnt cum_size type window h =
    let some_window : (window_size == 0) ≡ false = ground arith in
    let low : ltb rank num_pairs ≡ false = ground arith in
    let pair : ltb rank (num_pairs * 2) ≡ false = ground arith in rw (some_window, low, pair) refl

idle_barriers : count is_barrier (Event.barrier ∷ Event.barrier ∷ Event.gather ∷ []) ≡ 2
unfolding count
idle_barriers = refl

-- Every rank, with a partner or without, passes exactly two barriers in `calc_bw`, so that no rank
-- waits alone at one: the types of the transfers are the four that the program uses, and the window
-- is not empty.
pub calc_bw-barriers :
    (rank num_pairs window_size iov_cnt cum_size : ℕ) (type : SendRecvType)
    → 0 < window_size
    → type ≢ SendRecvType.fin
    → (events : List Event) × (calc_bw rank num_pairs window_size iov_cnt cum_size type ≡ ok events)
      × (count is_barrier events ≡ 2)
calc_bw-barriers rank num_pairs window_size iov_cnt cum_size type window type_ok =
    elim (dec_lt rank num_pairs) [
      | yes low ↦
          let (xs, ys, ex, _, m) =
            calc_bw-sides rank num_pairs window_size iov_cnt cum_size type low window type_ok in
          (_, ex, count-all_events-barriers cum_size window_size xs (sender_barriers xs ys m))
      | no high ↦ elim (dec_lt rank (num_pairs * 2)) [
        | yes pair ↦
            let (xs, ys, _, ey, m) =
              calc_bw-sides (rank - num_pairs) num_pairs window_size iov_cnt cum_size type
                (omega arith) window type_ok in
            let here : rank - num_pairs + num_pairs ≡ rank = omega arith in
            (
              _,
              ap (λ r. calc_bw r num_pairs window_size iov_cnt cum_size type) (sym here) ∙ ey,
              count-all_events-barriers cum_size window_size ys (receiver_barriers xs ys m),
            )
        | no idle ↦ (
          _,
          calc_bw-idle rank num_pairs window_size iov_cnt cum_size type window (omega arith),
          idle_barriers,
        )
      ]
    ]
  where
    sender_barriers :
        {low high : ℕ} (xs ys : List Event) → Matching low high xs ys → count is_barrier xs ≡ 0
    sender_barriers xs ys m =
        m is_barrier (λ e. false) (λ n. (refl, refl)) (λ n. (refl, refl)) refl refl ∙ no_barriers ys

    receiver_barriers :
        {low high : ℕ} (xs ys : List Event) → Matching low high xs ys → count is_barrier ys ≡ 0
    receiver_barriers xs ys m =
        sym (m (λ e. false) is_barrier (λ n. (refl, refl)) (λ n. (refl, refl)) refl refl)
        ∙ no_barriers xs
