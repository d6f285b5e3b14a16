-- ===== src/Measure/OneSided/Queues.antt =====
-- performance/multi-node/rdm_one_sided.c: the completion queues of a thread, and the bytes that it
-- counts.
use mathlib.Core.Path.{subst⁻¹}
use mathlib.Core.List.{append_assoc, append-nil}
use cray_tests.Prelude.{
  ℕ, zero, suc, ◌+◌, ◌-◌, ◌<◌, ◌≤◌, ◌≡◌, refl, sym, ap, ◌∙◌, arith, true, Option, none, some, List,
  [], ◌∷◌, ◌++◌, leb, ltb, if◌then◌else◌,
}
use cray_tests.Options.OneSided.{Settings}
use cray_tests.Measure.OneSided.{
  Event, window_events, Sent, warmed_up, send_windows, sender, receiver,
}

-- The operations of the send and of the receive queue that no completion was read for, after the
-- events: at most `limit` of each, and `none` if a queue has more or a wait is for more than there
-- are.
unfoldable pub outstanding : ℕ → ℕ → ℕ → List Event → Option (ℕ × ℕ)
outstanding limit scq rcq [] = some (scq, rcq)
outstanding limit scq rcq (Event.tbarrier ∷ events) = outstanding limit scq rcq events
outstanding limit scq rcq (Event.write j ∷ events) =
    let rest = outstanding limit (suc scq) rcq events in if ltb scq limit then rest else none
outstanding limit scq rcq (Event.send ∷ events) =
    let rest = outstanding limit (suc scq) rcq events in if ltb scq limit then rest else none
outstanding limit scq rcq (Event.recv ∷ events) =
    let rest = outstanding limit scq (suc rcq) events in if ltb rcq limit then rest else none
outstanding limit scq rcq (Event.wait_scq n ∷ events) =
    let rest = outstanding limit (scq - n) rcq events in if leb n scq then rest else none
outstanding limit scq rcq (Event.wait_rcq n ∷ events) =
    let rest = outstanding limit scq (rcq - n) events in if leb n rcq then rest else none

outstanding-window :
    (limit j n scq rcq : ℕ) (events : List Event)
    → scq + n ≤ limit
    → outstanding limit scq rcq (window_events j n ++ events)
      ≡ outstanding limit (scq + n) rcq events
unfolding window_events outstanding
outstanding-window limit j zero scq rcq events le =
    ap (λ m. outstanding limit m rcq events) (omega arith)
outstanding-window limit j (suc n) scq rcq events le =
    let room : ltb scq limit ≡ true = ground arith in
    rw room (
      outstanding-window limit (suc j) n (suc scq) rcq events (omega arith)
      ∙ ap (λ m. outstanding limit m rcq events) (omega arith))

-- Events after which both queues are as before.
unfoldable pub IsSettled : ℕ → List Event → Type 0
IsSettled limit events =
    (rest : List Event) → outstanding limit 0 0 (events ++ rest) ≡ outstanding limit 0 0 rest

IsSettled-append :
    (limit : ℕ) (xs ys : List Event)
    → IsSettled limit xs
    → IsSettled limit ys
    → IsSettled limit (xs ++ ys)
unfolding IsSettled
IsSettled-append limit xs ys hx hy rest =
    ap (outstanding limit 0 0) (append_assoc xs ys rest) ∙ hx (ys ++ rest) ∙ hy rest

window-IsSettled :
    (limit window_size : ℕ)
    → window_size ≤ limit
    → IsSettled limit (window_events 0 window_size ++ Event.wait_scq window_size ∷ [])
unfolding outstanding IsSettled
window-IsSettled limit window_size le rest =
    let window = window_events 0 window_size in
    let wait = Event.wait_scq window_size in
    let all : leb window_size window_size ≡ true = ground arith in
    let posted : 0 + window_size ≡ window_size = omega arith in
    let none_left : window_size - window_size ≡ 0 = omega arith in
    ap (outstanding limit 0 0) (append_assoc window (wait ∷ []) rest)
    ∙ outstanding-window limit 0 window_size 0 0 (wait ∷ rest) (omega arith)
    ∙ ap (λ m. outstanding limit m 0 (wait ∷ rest)) posted
    ∙ rw all (ap (λ m. outstanding limit m 0 rest) none_left)

warmed_up-events : (i skip clock : ℕ) (s : Sent) → (warmed_up i skip clock s).events ≡ s.events
warmed_up-events i skip clock s = ground arith

send_windows-IsSettled :
    (limit i n skip window_size size clock : ℕ) (s : Sent)
    → window_size ≤ limit
    → IsSettled limit s.events
    → IsSettled limit (send_windows i n skip window_size size clock s).events
unfolding send_windows
send_windows-IsSettled limit i zero skip window_size size clock s le h = h
send_windows-IsSettled limit i (suc n) skip window_size size clock s le h =
    send_windows-IsSettled limit (suc i) n skip window_size size clock _ le (
      IsSettled-append limit _ _ (subst⁻¹ (IsSettled limit) (warmed_up-events i skip clock s) h)
        (window-IsSettled limit window_size le))

-- The messages at the end of either rank.
sender_end-IsSettled :
    (limit : ℕ)
    → 0 < limit
    → IsSettled limit (Event.send ∷ Event.wait_scq 1 ∷ Event.recv ∷ Event.wait_rcq 1 ∷ [])
unfolding outstanding IsSettled
sender_end-IsSettled limit pos rest = let room : ltb 0 limit ≡ true = ground arith in rw room refl

receiver_end-IsSettled :
    (limit : ℕ)
    → 0 < limit
    → IsSettled limit (Event.recv ∷ Event.wait_rcq 1 ∷ Event.send ∷ Event.wait_scq 1 ∷ [])
unfolding outstanding IsSettled
receiver_end-IsSettled limit pos rest = let room : ltb 0 limit ≡ true = ground arith in rw room refl

-- The barriers of the threads before and after leave the queues alone.
between-IsSettled :
    (limit : ℕ) (events : List Event)
    → IsSettled limit events
    → IsSettled limit (Event.tbarrier ∷ (events ++ Event.tbarrier ∷ []))
unfolding outstanding IsSettled
between-IsSettled limit events h rest =
    ap (outstanding limit 0 0) (append_assoc events (Event.tbarrier ∷ []) rest)
    ∙ h (Event.tbarrier ∷ rest)

pub sender-IsSettled :
    (limit size clock_start clock_end : ℕ) (s : Settings)
    → s.window_size ≤ limit
    → 0 < limit
    → IsSettled limit (sender s size clock_start clock_end).events
unfolding sender IsSettled
sender-IsSettled limit size clock_start clock_end s le pos =
    let begin : Sent = record { events = []; bytes_sent = 0; t_start = 0 } in
    between-IsSettled limit _ (
      IsSettled-append limit _ _
        (send_windows-IsSettled limit 0 (s.loop + s.skip) s.skip s.window_size size clock_start
          begin le (λ rest. refl))
        (sender_end-IsSettled limit pos))

pub receiver-IsSettled : (limit : ℕ) → 0 < limit → IsSettled limit receiver.events
unfolding receiver
receiver-IsSettled limit pos = between-IsSettled limit _ (receiver_end-IsSettled limit pos)

-- Events after which both queues are as before leave them empty.
pub outstanding-IsSettled :
    (limit : ℕ) (events : List Event)
    → IsSettled limit events
    → outstanding limit 0 0 events ≡ some (0, 0)
unfolding IsSettled outstanding
outstanding-IsSettled limit events h = ap (outstanding limit 0 0) (sym (append-nil events)) ∙ h []
