-- ===== src/Fabric/Mbw/Bandwidth.antt =====
-- performance/multi-node/rdm_mbw_mr.c: `calc_bw`, as the sequence of what a rank does: barriers,
-- messages that are posted, and waits. Times and the contents of the buffers are left out.
pub mod Pairing
pub mod Barriers
use cray_tests.Prelude.{
  ℕ, zero, suc, ◌+◌, ◌-◌, ◌*◌, ◌/◌, ◌<◌, Bool, List, [], ◌∷◌, ◌++◌, ◌==◌, ltb, if◌then◌else◌,
  Outcome, ok, aborted, fault, ◌>>=◌,
}

-- `enum send_recv_type_e`
pub data SendRecvType : Type 0 where
  send_recv : SendRecvType
  sendv_recvv : SendRecvType
  send_recvv : SendRecvType
  sendv_recv : SendRecvType
  fin : SendRecvType

pub data Event : Type 0 where
  barrier : Event
  send : ℕ → Event
  recv : ℕ → Event
  wait_sends : ℕ → Event
  wait_recvs : ℕ → Event
  gather : Event

-- `n` times the same events.
unfoldable pub times : ℕ → List Event → List Event
times zero events = []
times (suc n) events = events ++ times n events

-- What is posted for one message of the window: a message for each part with SEND_RECV, else one.
unfoldable pub posted : SendRecvType → ℕ → Event → Outcome (List Event)
unfolding times
posted SendRecvType.send_recv iov_cnt event = ok (times iov_cnt (event ∷ []))
posted SendRecvType.sendv_recvv iov_cnt event = ok (event ∷ [])
posted SendRecvType.send_recvv iov_cnt event = ok (event ∷ [])
posted SendRecvType.sendv_recv iov_cnt event = ok (event ∷ [])
posted SendRecvType.fin iov_cnt event = aborted

unfoldable pub waited : SendRecvType → ℕ → ℕ → ℕ
waited SendRecvType.send_recv window_size iov_cnt = window_size * iov_cnt
waited _ window_size iov_cnt = window_size

-- The iterations from `i` on with `n` left; at `skip` the warm-up ends with a barrier.
unfoldable pub iterations : ℕ → ℕ → ℕ → List Event → List Event
iterations i zero skip body = []
iterations i (suc n) skip body =
    let rest = iterations (suc i) n skip body in
    (if i == skip then Event.barrier ∷ [] else []) ++ (body ++ rest)

abbrev mult : ℕ → ℕ
mult window_size = if ltb 0 (64 / window_size) then 64 / window_size else 1

unfoldable pub loop_count : ℕ → ℕ → ℕ
loop_count cum_size window_size = (if ltb 8192 cum_size then 20 else 100) * mult window_size

unfoldable pub skip_count : ℕ → ℕ → ℕ
skip_count cum_size window_size = (if ltb 8192 cum_size then 2 else 10) * mult window_size

unfoldable pub sender_body : ℕ → ℕ → ℕ → SendRecvType → Outcome (List Event)
unfolding posted waited
sender_body target window_size iov_cnt type = do
  message ← posted type iov_cnt (Event.send target)
  ok (
      times window_size message
      ++ Event.wait_sends (waited type window_size iov_cnt)
        ∷ Event.recv target
        ∷ Event.wait_recvs 1
        ∷ [])

unfoldable pub receiver_body : ℕ → ℕ → ℕ → SendRecvType → Outcome (List Event)
unfolding posted waited
receiver_body target window_size iov_cnt type = do
  message ← posted type iov_cnt (Event.recv target)
  ok (
      times window_size message
      ++ Event.wait_recvs (waited type window_size iov_cnt)
        ∷ Event.send target
        ∷ Event.wait_sends 1
        ∷ [])

-- The division by the window size comes first.
unfoldable pub calc_bw : ℕ → ℕ → ℕ → ℕ → ℕ → SendRecvType → Outcome (List Event)
unfolding iterations loop_count skip_count sender_body receiver_body
calc_bw rank num_pairs window_size iov_cnt cum_size type =
    let loop = loop_count cum_size window_size in
    let skip = skip_count cum_size window_size in
    let all : List Event → List Event =
      λ body. Event.barrier ∷ (iterations 0 (loop + skip) skip body ++ Event.gather ∷ []) in
    let sender =
      sender_body (rank + num_pairs) window_size iov_cnt type >>= λ body. ok (all body) in
    let receiver =
      receiver_body (rank - num_pairs) window_size iov_cnt type >>= λ body. ok (all body) in
    let idle = ok (Event.barrier ∷ Event.barrier ∷ Event.gather ∷ []) in
    if window_size == 0
    then fault
    else if ltb rank num_pairs
    then sender
    else if ltb rank (num_pairs * 2)
    then receiver
    else idle
