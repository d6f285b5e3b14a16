-- ===== src/Measure/OneSided.antt =====
-- performance/multi-node/rdm_one_sided.c: `thread_fn`, as the calls that it makes, the bytes that it
-- counts and the clocks that it reads, and the rounds of `main`.
pub mod Bytes
pub mod Queues
pub mod Rounds
use cray_tests.Prelude.{
  ℕ, zero, suc, ◌+◌, ◌-◌, ◌*◌, ◌%◌, ◌^◌, ◌<◌, ◌≤◌, ◌≡◌, Bool, true, false, Option, none, some, List,
  [], ◌∷◌, ◌++◌, ◌==◌, leb, ltb, if◌then◌else◌,
}
use cray_tests.Options.OneSided.{Settings}
use cray_tests.Measure.Results.{Result}

-- `write` has the context `j`; a wait is for completions of the send or the receive queue.
pub data Event : Type 0 where
  tbarrier : Event
  write : ℕ → Event
  send : Event
  recv : Event
  wait_scq : ℕ → Event
  wait_rcq : ℕ → Event

-- The inner loop from `j` on, with `n` rounds left.
unfoldable pub window_events : ℕ → ℕ → List Event
window_events j zero = []
window_events j (suc n) = Event.write j ∷ window_events (suc j) n

-- `ptd->bytes_sent += size` in each of `n` rounds.
unfoldable pub window_bytes : ℕ → ℕ → ℕ → ℕ
window_bytes size zero bytes = bytes
window_bytes size (suc n) bytes = window_bytes size n ((bytes + size) % 2 ^ 64)

-- What a loop over the windows has done: its events, `bytes_sent` and `t_start`.
pub record Sent : Type 0 where
  pub events : List Event
  pub bytes_sent : ℕ
  pub t_start : ℕ

-- The end of the warm-up: the clock is read, and the count starts again.
abbrev pub warmed_up : ℕ → ℕ → ℕ → Sent → Sent
warmed_up i skip clock s = if i == skip then record s { bytes_sent = 0; t_start = clock } else s

-- Iteration `i`: a window of writes, and the wait for all of them.
unfoldable pub send_window : ℕ → ℕ → ℕ → ℕ → ℕ → Sent → Sent
unfolding window_events window_bytes
send_window skip window_size size clock i s =
    let begun = warmed_up i skip clock s in
    record begun {
      events = begun.events ++ (window_events 0 window_size ++ Event.wait_scq window_size ∷ []);
      bytes_sent = window_bytes size window_size begun.bytes_sent;
    }

-- The iterations from `i` on with `n` left.
unfoldable pub send_windows : ℕ → ℕ → ℕ → ℕ → ℕ → ℕ → Sent → Sent
unfolding send_window
send_windows i zero skip window_size size clock s = s
send_windows i (suc n) skip window_size size clock s =
    send_windows (suc i) n skip window_size size clock (send_window skip window_size size clock i s)

-- What a call of `thread_fn` does, and what it leaves for `main`.
pub record Run : Type 0 where
  pub events : List Event
  pub result : Result

-- The time between two readings of the clock, as a `uint64_t`.
abbrev pub elapsed : ℕ → ℕ → ℕ
elapsed t_start t_end = (t_end + 2 ^ 64 - t_start) % 2 ^ 64

abbrev pub run_of : List Event → ℕ → ℕ → ℕ → Run
run_of events bytes_sent t_start t_end = record {
  events = Event.tbarrier ∷ (events ++ Event.tbarrier ∷ []);
  result = record {
    latency = elapsed t_start t_end;
    bytes_sent = bytes_sent;
    time_start = t_start;
    time_end = t_end;
  };
}

-- Rank 0 writes, and then tells rank 1 and waits for its answer.
unfoldable pub sender : Settings → ℕ → ℕ → ℕ → Run
unfolding send_windows
sender s size clock_start clock_end =
    let sent =
      send_windows 0 (s.loop + s.skip) s.skip s.window_size size clock_start
        (record { events = []; bytes_sent = 0; t_start = 0 }) in
    run_of (sent.events ++ Event.send ∷ Event.wait_scq 1 ∷ Event.recv ∷ Event.wait_rcq 1 ∷ [])
      sent.bytes_sent sent.t_start clock_end

unfoldable pub receiver : Run
receiver = run_of (Event.recv ∷ Event.wait_rcq 1 ∷ Event.send ∷ Event.wait_scq 1 ∷ []) 0 0 0

-- `thread_fn` of thread `thread_id` of rank `myid`; `none` is -EINVAL. The clock is read at the end
-- of the warm-up and at the end.
unfoldable pub thread_fn : ℕ → ℕ → Settings → ℕ → ℕ → ℕ → Option Run
unfolding sender receiver
thread_fn myid thread_id s size clock_start clock_end =
    if leb s.threads thread_id
    then none
    else if myid == 0
    then some (sender s size clock_start clock_end)
    else if myid == 1
    then some receiver
    else some (run_of [] 0 0 0)
