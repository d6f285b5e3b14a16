-- ===== src/Measure/Mbw/Pairing.antt =====
-- performance/multi-node/rdm_mbw_mr.c: the ranks of `main` fit together over all measurements.
use cray_tests.Prelude.{
  ℕ, ◌+◌, ◌*◌, ◌/◌, ◌<◌, ◌≡◌, refl, arith, Bool, true, some, List, [], ◌∷◌, ◌++◌, length, ok, leb,
}
use cray_tests.Fabric.Libfabric.{pos}
use cray_tests.Fabric.Mbw.Bandwidth.{Event}
use cray_tests.Fabric.Mbw.Bandwidth.Pairing.{
  count, is_barrier, is_send, is_recv, count-append, calc_bw-pairing,
}
use cray_tests.Fabric.Mbw.Bandwidth.Barriers.{calc_bw-barriers}
use cray_tests.Options.{Opt}
use cray_tests.Options.Mbw.{Settings, parse_options, parse_options-PairsFit}
use cray_tests.Measure.Mbw.{Call, calls, run_calls, main_events}
use cray_tests.Measure.Mbw.Calls.{All, IsMeasured, calls-IsMeasured}

-- What a rank and its partner post in the calls.
abbrev Paired : ℕ → ℕ → List Event → List Event → Type 0
Paired rank pairs xs ys =
    (count (is_send (rank + pairs)) xs ≡ count (is_recv rank) ys)
    × (count (is_recv (rank + pairs)) xs ≡ count (is_send rank) ys)

run_calls-Paired :
    (rank pairs : ℕ) (list : List Call)
    → rank < pairs
    → All IsMeasured list
    → (xs : List Event) × (ys : List Event) × (run_calls rank pairs list ≡ ok xs)
      × (run_calls (rank + pairs) pairs list ≡ ok ys)
      × Paired rank pairs xs ys
unfolding run_calls count
run_calls-Paired rank pairs [] lt h = ([], [], refl, refl, (refl, refl))
run_calls-Paired rank pairs (c ∷ list) lt (m, h) =
    let (x, y, ex, ey, sends, recvs) =
      calc_bw-pairing rank pairs c.window_size c.iov_cnt c.buf_len c.type lt m.window_pos m.kind in
    let (xs, ys, exs, eys, (more_sends, more_recvs)) = run_calls-Paired rank pairs list lt h in
    (
      x ++ xs,
      y ++ ys,
      rw (ex, exs) refl,
      rw (ey, eys) refl,
      (
        omega (
          arith,
          count-append (is_send (rank + pairs)) x xs,
          count-append (is_recv rank) y ys,
          sends,
          more_sends,
        ),
        omega (
          arith,
          count-append (is_recv (rank + pairs)) x xs,
          count-append (is_send rank) y ys,
          recvs,
          more_recvs,
        ),
      ),
    )

run_calls-barriers :
    (rank pairs : ℕ) (list : List Call)
    → All IsMeasured list
    → (xs : List Event) × (run_calls rank pairs list ≡ ok xs)
      × (count is_barrier xs ≡ 2 * length list)
unfolding run_calls count
run_calls-barriers rank pairs [] h = ([], refl, refl)
run_calls-barriers rank pairs (c ∷ list) (m, h) =
    let (x, ex, two) =
      calc_bw-barriers rank pairs c.window_size c.iov_cnt c.buf_len c.type m.window_pos m.kind in
    let (xs, exs, more) = run_calls-barriers rank pairs list h in
    (x ++ xs, rw (ex, exs) refl, omega (arith, count-append is_barrier x xs, two, more))

-- Every rank, in a pair or not, passes the same number of barriers from the first measurement to the
-- end: two for each measurement and two more.
pub main_events-barriers :
    (rank pairs : ℕ) (window_varied : Bool) (window_size : ℕ)
    → 0 < window_size
    → (events : List Event) × (main_events rank pairs window_varied window_size ≡ ok events)
      × (count is_barrier events ≡ 2 * length (calls window_varied window_size) + 2)
unfolding main_events count
main_events-barriers rank pairs window_varied window_size window =
    let (xs, e, n) =
      run_calls-barriers rank pairs (calls window_varied window_size)
        (calls-IsMeasured window_varied window_size window) in
    let end = Event.barrier ∷ Event.barrier ∷ [] in
    (xs ++ end, rw e refl, omega (arith, count-append is_barrier xs end, n))

finished-Paired :
    (rank pairs : ℕ) (window_varied : Bool) (window_size : ℕ)
    → rank < pairs
    → 0 < window_size
    → (xs : List Event) × (ys : List Event) × (main_events rank pairs window_varied window_size
        ≡ ok xs)
      × (main_events (rank + pairs) pairs window_varied window_size ≡ ok ys)
      × Paired rank pairs xs ys
unfolding main_events count
finished-Paired rank pairs window_varied window_size lt window =
    let (xs, ys, ex, ey, (sends, recvs)) =
      run_calls-Paired rank pairs (calls window_varied window_size) lt
        (calls-IsMeasured window_varied window_size window) in
    let end = Event.barrier ∷ Event.barrier ∷ [] in
    (
      xs ++ end,
      ys ++ end,
      rw ex refl,
      rw ey refl,
      (
        omega (
          arith,
          count-append (is_send (rank + pairs)) xs end,
          count-append (is_recv rank) ys end,
          sends,
        ),
        omega (
          arith,
          count-append (is_recv (rank + pairs)) xs end,
          count-append (is_send rank) ys end,
          recvs,
        ),
      ),
    )

-- Whatever options are accepted, with pairs of ranks and a window that is not empty, the partner of
-- a rank of the first half is a rank of the job, and over all measurements each posts a receive for
-- every message that the other one sends.
pub main_events-pairing :
    (numprocs rank pairs window_size : ℕ) (opts : List Opt) (s : Settings)
    → parse_options numprocs opts ≡ some s
    → s.pairs ≡ pos pairs
    → s.window_size ≡ pos window_size
    → rank < pairs
    → 0 < window_size
    → (rank + pairs < numprocs)
      × ((xs : List Event) × (ys : List Event) × (main_events rank pairs s.window_varied window_size
            ≡ ok xs)
          × (main_events (rank + pairs) pairs s.window_varied window_size ≡ ok ys)
          × (count (is_send (rank + pairs)) xs ≡ count (is_recv rank) ys)
          × (count (is_recv (rank + pairs)) xs ≡ count (is_send rank) ys))
main_events-pairing numprocs rank pairs window_size opts s e ep ew lt window =
    let fit = parse_options-PairsFit numprocs opts s e in
    let within : leb pairs (numprocs / 2) ≡ true = rw ep at fit in
    let (xs, ys, ex, ey, (sends, recvs)) =
      finished-Paired rank pairs s.window_varied window_size lt window in
    (ground arith, (xs, ys, ex, ey, sends, recvs))
