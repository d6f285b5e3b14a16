-- ===== src/PrintUtils/CsvLoop.antt =====
-- common/ct_print_utils.c: the csv form of a whole line, through a buffer of any size.
use mathlib.Core.List.{append_assoc, append-nil}
use cray_tests.Prelude.{
  ℕ, zero, suc, ◌+◌, ◌<◌, ◌≤◌, ◌≡◌, ◌⊎◌, inl, inr, refl, sym, ap, ◌∙◌, arith, true, List, [], ◌∷◌,
  ◌++◌, length, Outcome, ok, ◌>>=◌,
}
use cray_tests.PrintUtils.{Info, Env, csv_fill, make_room, csv_rest, csv_loop}
use cray_tests.PrintUtils.Csv.{
  to_csv, csv_text, SameTable, to_csv_nil, csv_fill_lem, csv_fill-progress, make_room_lem,
}

-- How the loop ends: nothing of the line is lost, and the buffer is in bounds.
abbrev Written : Outcome Info → List ℕ → Info → Type 0
Written run line info =
    (info' : Info) × (run ≡ ok info')
    × (csv_text info' ≡ csv_text info ++ to_csv line)
    × (length info'.cbuf ≤ info'.cbuf_sz)
    × (0 < info'.cbuf_sz)
    × SameTable info info'

abbrev filled : List ℕ → Info → Info
filled line info = record info { cbuf = (csv_fill info.cbuf_sz line info.cbuf).1 }

csv_loop-cons :
    (fuel : ℕ) (env : Env) (c : ℕ) (line : List ℕ) (info : Info)
    → csv_loop (suc fuel) env (c ∷ line) info
      ≡ csv_rest (csv_fill info.cbuf_sz (c ∷ line) info.cbuf).0 (filled (c ∷ line) info) (
          make_room env (filled (c ∷ line) info)
          >>= csv_loop fuel env (csv_fill info.cbuf_sz (c ∷ line) info.cbuf).0)
unfolding csv_loop
csv_loop-cons fuel env c line info = refl

-- The text of the file and the buffer after a round.
filled-text :
    (line : List ℕ) (info : Info)
    → length info.cbuf ≤ info.cbuf_sz
    → csv_text (filled line info) ++ to_csv (csv_fill info.cbuf_sz line info.cbuf).0
      ≡ csv_text info ++ to_csv line
filled-text line info h =
    let (form, _, _) = csv_fill_lem info.cbuf_sz line info.cbuf h in
    append_assoc info.csv_written _ _
    ∙ ap (λ t. info.csv_written ++ t) form
    ∙ sym (append_assoc info.csv_written info.cbuf (to_csv line))

-- A round that is followed by what does right with the characters that it leaves.
csv_round :
    (fuel : ℕ) (env : Env) (c : ℕ) (line : List ℕ) (info : Info)
    → env.write_ok ≡ true
    → 0 < info.cbuf_sz
    → length info.cbuf ≤ info.cbuf_sz
    → ((info' : Info)
        → length info'.cbuf < info'.cbuf_sz
        → Written
            (csv_loop fuel env (csv_fill info.cbuf_sz (c ∷ line) info.cbuf).0 info')
            (csv_fill info.cbuf_sz (c ∷ line) info.cbuf).0
            info')
    → Written (csv_loop (suc fuel) env (c ∷ line) info) (c ∷ line) info
csv_round fuel env c line info w pos h next =
    let (_, small, _) = csv_fill_lem info.cbuf_sz (c ∷ line) info.cbuf h in
    elim (List-cases (csv_fill info.cbuf_sz (c ∷ line) info.cbuf).0) [
      | inl e ↦ (
        filled (c ∷ line) info,
        csv_loop-cons fuel env c line info ∙ rw e refl,
        sym (append-nil _)
            ∙ ap (λ t. csv_text (filled (c ∷ line) info) ++ t) (sym to_csv_nil)
            ∙ ap (λ t. csv_text (filled (c ∷ line) info) ++ to_csv t) (sym e)
            ∙ filled-text (c ∷ line) info h,
        small,
        pos,
        (refl, refl, refl, refl, refl),
      )
      | inr (d, rest, e) ↦
          let (roomy, made, text, room, (a1, a2, a3, a4, a5)) =
            make_room_lem env (filled (c ∷ line) info) w pos small in
          let onward =
            make_room env (filled (c ∷ line) info)
            >>= csv_loop fuel env (csv_fill info.cbuf_sz (c ∷ line) info.cbuf).0 in
          let (last, run, text', small', pos', (b1, b2, b3, b4, b5)) = next roomy room in
          (
            last,
            csv_loop-cons fuel env c line info
                ∙ ap (λ l. csv_rest l (filled (c ∷ line) info) onward) e
                ∙ ap
                    (λ (o : Outcome Info).
                      o >>= csv_loop fuel env (csv_fill info.cbuf_sz (c ∷ line) info.cbuf).0)
                    made
                ∙ run,
            text'
                ∙ ap (λ t. t ++ to_csv (csv_fill info.cbuf_sz (c ∷ line) info.cbuf).0) text
                ∙ filled-text (c ∷ line) info h,
            small',
            pos',
            (b1 ∙ a1, b2 ∙ a2, b3 ∙ a3, b4 ∙ a4, b5 ∙ a5),
          )
    ]
  where
    List-cases : (l : List ℕ) → (l ≡ []) ⊎ ((d : ℕ) × (rest : List ℕ) × (l ≡ d ∷ rest))
    List-cases [] = inl refl
    List-cases (d ∷ rest) = inr (d, rest, refl)

nothing_left :
    (fuel : ℕ) (env : Env) (info : Info)
    → length info.cbuf ≤ info.cbuf_sz
    → 0 < info.cbuf_sz
    → Written (csv_loop (suc fuel) env [] info) [] info
unfolding csv_loop to_csv
nothing_left fuel env info h pos =
    (info, refl, sym (append-nil (csv_text info)), h, pos, (refl, refl, refl, refl, refl))

-- With room in the buffer the loop takes a character in each round.
csv_loop-room :
    (fuel : ℕ) (env : Env) (line : List ℕ) (info : Info)
    → env.write_ok ≡ true
    → length info.cbuf < info.cbuf_sz
    → length line ≤ fuel
    → Written (csv_loop (suc fuel) env line info) line info
csv_loop-room fuel env [] info w room h = nothing_left fuel env info (omega arith) (omega arith)
csv_loop-room zero env (c ∷ line) info w room h = absurd (omega arith)
csv_loop-room (suc fuel) env (c ∷ line) info w room h =
    csv_round (suc fuel) env c line info w (omega arith) (omega arith) (λ info' room'.
      csv_loop-room fuel env _ info' w room'
        (omega (arith, csv_fill-progress info.cbuf_sz c line info.cbuf room)))

-- The csv form of a line is added to the file and the buffer whole, whatever the size of the buffer
-- and whether it can grow, when `write` succeeds; a full buffer costs one round more.
pub csv_loop_lem :
    (env : Env) (line : List ℕ) (info : Info)
    → env.write_ok ≡ true
    → 0 < info.cbuf_sz
    → length info.cbuf ≤ info.cbuf_sz
    → (info' : Info) × (csv_loop (length line + 2) env line info ≡ ok info')
      × (csv_text info' ≡ csv_text info ++ to_csv line)
      × (length info'.cbuf ≤ info'.cbuf_sz)
      × (0 < info'.cbuf_sz)
      × SameTable info info'
csv_loop_lem env line info w pos h = rw (two_more (length line)) (go line)
  where
    two_more : (n : ℕ) → n + 2 ≡ suc (suc n)
    two_more n = omega arith

    go : (line : List ℕ) → Written (csv_loop (suc (suc (length line))) env line info) line info
    go [] = nothing_left _ env info h pos
    go (c ∷ line) = csv_round _ env c line info w pos h (λ info' room'.
        csv_loop-room _ env _ info' w room'
          (((csv_fill_lem info.cbuf_sz (c ∷ line) info.cbuf h).2)))
