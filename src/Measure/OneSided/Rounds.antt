-- ===== src/Measure/OneSided/Rounds.antt =====
-- performance/multi-node/rdm_one_sided.c: the rounds of `main`, one for each size, and what the
-- threads do in them.
use cray_tests.Prelude.{ℕ, ◌*◌, ◌%◌, ◌^◌, ◌<◌, ◌≡◌, refl, some}
use cray_tests.Options.OneSided.{Settings}
use cray_tests.Measure.Rounds.{Sweep}
use cray_tests.Measure.OneSided.{Run, thread_fn}
use cray_tests.Measure.OneSided.Queues.{outstanding}

-- `MAX_MSG_SIZE`
abbrev pub max_msg_size : ℕ
max_msg_size = 2 ^ 22

abbrev pub sweep : Sweep
sweep = record {
  Settings = Settings;
  threads = λ s. s.threads;
  large =
      λ s. record s { loop = s.loop_large; skip = s.skip_large; window_size = s.window_size_large };
  large-large = λ s. refl;
  threads-large = λ s. refl;
}

-- What the threads of a round are to do: rank 0 posts at most a window of operations before it waits
-- for all of them, counts the bytes of exactly the measured windows, as a `uint64_t`, and divides by
-- a number that is not 0; neither rank waits for a completion that does not come or leaves one in
-- its queues.
abbrev pub RoundIsRight : ℕ → ℕ → Settings → Type 0
RoundIsRight thread_id size t =
    (clock_start clock_end : ℕ)
    → (r0 : Run) × (r1 : Run) × (thread_fn 0 thread_id t size clock_start clock_end ≡ some r0)
      × (thread_fn 1 thread_id t size clock_start clock_end ≡ some r1)
      × (outstanding t.window_size 0 0 r0.events ≡ some (0, 0))
      × (outstanding 1 0 0 r1.events ≡ some (0, 0))
      × (r0.result.bytes_sent ≡ (t.loop * (t.window_size * size)) % 2 ^ 64)
      × (r0.result.time_start ≡ clock_start)
      × (0 < t.loop * t.window_size)
