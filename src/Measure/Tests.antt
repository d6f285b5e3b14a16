-- ===== src/Measure/Tests.antt =====
-- The measurements at concrete inputs.
use cray_tests.Prelude.{
  ℕ, ◌+◌, ◌*◌, ◌%◌, ◌^◌, ◌<◌, ◌≤◌, ◌≡◌, ◌⊎◌, refl, arith, true, some, List, [], ◌∷◌, length, ok,
}
use cray_tests.Fabric.Libfabric.{pos}
use cray_tests.Fabric.Mbw.Bandwidth.{Event}
use cray_tests.Fabric.Mbw.Bandwidth.Pairing.{count, is_barrier, is_send, is_recv}
use cray_tests.Options.{parse_all}
use cray_tests.Options.OneSided
use cray_tests.Options.Pingpong
use cray_tests.Options.Mbw
use cray_tests.Measure.Results.{Result, summary, total, IsLeast, IsGreatest, summary_lem}
use cray_tests.Measure.Pingpong.{Pc, State, Step, Reach}
use cray_tests.Measure.Pingpong.Progress.{Finished, pingpong-Finished, pingpong-alternates}
use cray_tests.Measure.OneSided.Rounds as OneSidedRounds
use cray_tests.Measure.Mbw.{Table, main_events, calls}
use cray_tests.Measure.Mbw.Calls.{All, IsMeasured, calls-IsMeasured}
use cray_tests.Measure.Mbw.Pairing.{main_events-pairing, main_events-barriers}

-- Rank 0 has sent its first message and rank 1 waits for it.
abbrev sent : State
sent = record {
  rank0 = record { i = 0; pc = Pc.wait_send };
  rank1 = record { i = 0; pc = Pc.wait_recv };
  to1 = 1;
  to0 = 0;
}

sent-Reach : Reach 1 2 sent
sent-Reach =
    Reach.next (Reach.next Reach.here (Step.send0 refl (omega arith) refl))
      (Step.recv1 refl (omega arith) refl)

pingpong-Finished_example : ((t : State) × Step 1 sent t) ⊎ Finished 1 2 sent
pingpong-Finished_example = pingpong-Finished 1 2 sent sent-Reach

pingpong-alternates_example :
    (sent.to1 + sent.to0 ≤ 1)
    × (sent.rank0.i ≤ sent.rank1.i + 1)
    × (sent.rank1.i ≤ sent.rank0.i + 1)
    × (2 ≤ 8 * 1)
pingpong-alternates_example = pingpong-alternates 1 2 sent sent-Reach

-- Three threads, the second one the fastest.
abbrev result : ℕ → ℕ → Result
result t_start t_end = record {
  latency = t_end;
  bytes_sent = 100;
  time_start = t_start;
  time_end = t_end;
}

abbrev others : List Result
others = result 10 40 ∷ result 20 90 ∷ []

summary_lem_example :
    IsLeast (λ x. x.latency) (summary (result 15 50) others).min_lat (result 15 50 ∷ others)
    × IsGreatest (λ x. x.latency) (summary (result 15 50) others).max_lat (result 15 50 ∷ others)
    × ((summary (result 15 50) others).sum_lat ≡ total (λ x. x.latency) (result 15 50 ∷ others))
    × ((summary (result 15 50) others).bytes_sent
        ≡ total (λ x. x.bytes_sent) (result 15 50 ∷ others) % 2 ^ 64)
    × IsLeast (λ x. x.time_start) (summary (result 15 50) others).time_start (result 15 50 ∷ others)
    × IsGreatest (λ x. x.time_end) (summary (result 15 50) others).time_end (result 15 50 ∷ others)
summary_lem_example = summary_lem (result 15 50) others (omega arith)

pingpong_defaults : Pingpong.parse_options [] ≡ some Pingpong.defaults
unfolding Pingpong.parse_options parse_all
pingpong_defaults = refl

-- Four processes make two pairs.
mbw_defaults : Mbw.parse_options 4 [] ≡ some (Mbw.defaults 4)
unfolding Mbw.parse_options parse_all
mbw_defaults = refl

mbw_pairs : (Mbw.defaults 4).pairs ≡ pos 2
unfolding Mbw.defaults
mbw_pairs = refl

mbw_window : (Mbw.defaults 4).window_size ≡ pos 64
unfolding Mbw.defaults
mbw_window = refl

main_events-pairing_example :
    (1 + 2 < 4)
    × ((xs : List Event) × (ys : List Event) × (main_events 1 2 (Mbw.defaults 4).window_varied 64
          ≡ ok xs)
        × (main_events (1 + 2) 2 (Mbw.defaults 4).window_varied 64 ≡ ok ys)
        × (count (is_send (1 + 2)) xs ≡ count (is_recv 1) ys)
        × (count (is_recv (1 + 2)) xs ≡ count (is_send 1) ys))
main_events-pairing_example =
    main_events-pairing 4 1 2 64 [] (Mbw.defaults 4) mbw_defaults mbw_pairs mbw_window (omega arith)
      (omega arith)

main_events-barriers_example :
    (events : List Event) × (main_events 4 2 true 64 ≡ ok events)
    × (count is_barrier events ≡ 2 * length (calls true 64) + 2)
main_events-barriers_example = main_events-barriers 4 2 true 64 (omega arith)

calls-IsMeasured_example : All IsMeasured (calls true 64)
calls-IsMeasured_example = calls-IsMeasured true 64 (omega arith)

-- The bandwidth grows with the number of parts.
abbrev growing : ℕ → ℕ → ℕ → ℕ
growing j i c = 100 * j + 10 * i + c

abbrev fresh : Table
fresh j i = 0
