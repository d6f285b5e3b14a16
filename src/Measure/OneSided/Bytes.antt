-- ===== src/Measure/OneSided/Bytes.antt =====
-- performance/multi-node/rdm_one_sided.c: the bytes that `thread_fn` counts, and its time.
use cray_tests.Prelude.{
  ℕ, zero, suc, ◌+◌, ◌-◌, ◌*◌, ◌%◌, ◌^◌, ◌<◌, ◌≤◌, ◌≡◌, refl, sym, ap, ◌∙◌, arith, true, false, [],
  ◌==◌, Bool-cases, inl, inr,
}
use cray_tests.Options.OneSided.{Settings}
use cray_tests.Measure.OneSided.{window_bytes, Sent, send_window, send_windows, sender}

-- The bytes of a window, and of windows without a reset.
window_bytes_lem :
    (size n bytes : ℕ) → bytes < 2 ^ 64 → window_bytes size n bytes ≡ (bytes + n * size) % 2 ^ 64
unfolding window_bytes
window_bytes_lem size zero bytes lt = omega arith
window_bytes_lem size (suc n) bytes lt =
    let rest = window_bytes_lem size n ((bytes + size) % 2 ^ 64) (omega arith) in
    let more : suc n * size ≡ size + n * size = grind arith in omega arith

-- A window after the warm-up, and the one that ends it.
send_window-late :
    (skip window_size size clock i : ℕ) (s : Sent)
    → skip < i
    → s.bytes_sent < 2 ^ 64
    → ((send_window skip window_size size clock i s).bytes_sent
        ≡ (s.bytes_sent + window_size * size) % 2 ^ 64)
      × ((send_window skip window_size size clock i s).t_start ≡ s.t_start)
unfolding send_window
send_window-late skip window_size size clock i s lt small =
    let late : (i == skip) ≡ false = ground arith in
    (rw late (window_bytes_lem size window_size s.bytes_sent small), rw late refl)

send_window-first :
    (skip window_size size clock : ℕ) (s : Sent)
    → ((send_window skip window_size size clock skip s).bytes_sent ≡ (window_size * size) % 2 ^ 64)
      × ((send_window skip window_size size clock skip s).t_start ≡ clock)
unfolding send_window
send_window-first skip window_size size clock s =
    let first : (skip == skip) ≡ true = ground arith in
    let bytes = window_bytes_lem size window_size 0 (omega arith) in
    (rw first (bytes ∙ ap (λ n. n % 2 ^ 64) (omega arith)), rw first refl)

module _ (skip window_size size clock : ℕ) where
  abbrev Windows : ℕ → ℕ → Sent → Sent
  Windows i n s = send_windows i n skip window_size size clock s

  send_windows-late :
      (i n : ℕ) (s : Sent)
      → skip < i
      → s.bytes_sent < 2 ^ 64
      → ((send_windows i n skip window_size size clock s).bytes_sent
          ≡ (s.bytes_sent + n * (window_size * size)) % 2 ^ 64)
        × ((send_windows i n skip window_size size clock s).t_start ≡ s.t_start)
  unfolding send_windows
  send_windows-late i zero s lt small = (omega arith, refl)
  send_windows-late i (suc n) s lt small =
      let (bytes, start) = send_window-late skip window_size size clock i s lt small in
      let (all, kept) =
        send_windows-late (suc i) n (send_window skip window_size size clock i s) (omega arith)
          (omega (arith, bytes)) in
      let more : suc n * (window_size * size) ≡ window_size * size + n * (window_size * size) =
        grind arith in
      (omega arith, kept ∙ start)

  -- The loop comes to the end of the warm-up, and counts from there.
  send_windows-counted :
      (i n loop : ℕ) (s : Sent)
      → i + n ≡ skip + suc loop
      → i ≤ skip
      → ((send_windows i n skip window_size size clock s).bytes_sent
          ≡ (suc loop * (window_size * size)) % 2 ^ 64)
        × ((send_windows i n skip window_size size clock s).t_start ≡ clock)
  unfolding send_windows
  send_windows-counted i zero loop s e le = absurd (omega arith)
  send_windows-counted i (suc n) loop s e le = elim (Bool-cases (i == skip)) [
    | inl at ↦
        let here : i ≡ skip = ground arith in
        let left : n ≡ loop = omega arith in
        let (bytes, start) = send_window-first skip window_size size clock s in
        let (all, kept) =
          send_windows-late (suc skip) loop (send_window skip window_size size clock skip s)
            (omega arith) (omega (arith, bytes)) in
        let more : suc loop * (window_size * size)
            ≡ window_size * size + loop * (window_size * size) =
          grind arith in
        rw (here, left) (omega arith, kept ∙ start)
    | inr before ↦
        send_windows-counted (suc i) n loop (send_window skip window_size size clock i s)
          (omega arith) (ground arith)
  ]

-- After its run rank 0 has counted the bytes of all the measured windows and of no other, as a
-- `uint64_t`, and its time starts at the end of the warm-up.
pub sender-counted :
    (s : Settings) (size clock_start clock_end : ℕ)
    → 0 < s.loop
    → ((sender s size clock_start clock_end).result.bytes_sent
        ≡ (s.loop * (s.window_size * size)) % 2 ^ 64)
      × ((sender s size clock_start clock_end).result.time_start ≡ clock_start)
unfolding sender
sender-counted s size clock_start clock_end pos =
    let e : s.loop ≡ suc (s.loop - 1) = omega arith in
    let (bytes, start) =
      send_windows-counted s.skip s.window_size size clock_start 0 (s.loop + s.skip) (s.loop - 1)
        (record { events = []; bytes_sent = 0; t_start = 0 }) (omega arith) (omega arith) in
    (bytes ∙ ap (λ n. (n * (s.window_size * size)) % 2 ^ 64) (sym e), start)
