-- ===== src/PrintUtils/Report.antt =====
-- common/ct_print_utils.c: what `ct_add_line` adds to the table and to the csv file.
use mathlib.Core.List.{append_assoc, append-nil}
use cray_tests.Prelude.{
  ℕ, ◌+◌, ◌-◌, ◌*◌, ◌^◌, ◌<◌, ◌≤◌, ◌≡◌, ◌⊎◌, inl, inr, refl, sym, ap, ◌∙◌, arith, true, false,
  Option-cases, Option, none, some, List, [], ◌++◌, length, take, drop, drop-append, length-append,
  length-take, ltb, lt→ltb, Outcome, ok, fault, ◌>>=◌,
}
use cray_tests.PrintUtils.{
  Info, Env, grow_buf, put_line, exhausted, counted, csv_loop, if_csv, add_csv, ct_add_line,
}
use cray_tests.PrintUtils.CsvLoop.{csv_loop_lem}
use cray_tests.PrintUtils.Csv.{to_csv, csv_text, SameTable}
use cray_tests.PrintUtils.Lines.{Valid, table_text, Roomy, line_ready, put_line-fits, take-whole}

-- The csv form that a line adds: none without a csv file.
abbrev pub added_csv : Option ℕ → List ℕ → List ℕ
added_csv none text = []
added_csv (some fd) text = to_csv text

pub counted-whole : (info : Info) → length info.tbuf ≡ info.tbuf_cnt → counted info ≡ ok info.tbuf
unfolding counted
counted-whole info e =
    let fits : ltb (length info.tbuf) info.tbuf_cnt ≡ false = ground arith in
    rw fits (ap ok (take-whole info.tbuf_cnt info.tbuf (omega (arith, e))))

-- The structure with the line in the buffer and counted.
abbrev with_line : List ℕ → Info → Info
with_line text roomy = record roomy {
  tbuf = take roomy.tbuf_cnt roomy.tbuf ++ text;
  tbuf_cnt = roomy.tbuf_cnt + length text;
}

-- The second half, for a line that is in the buffer after the counted bytes.
add_csv_lem :
    (env : Env) (front text : List ℕ) (info : Info)
    → info.tbuf ≡ front ++ text
    → length info.tbuf ≡ info.tbuf_cnt
    → env.write_ok ≡ true
    → 0 < info.cbuf_sz
    → length info.cbuf ≤ info.cbuf_sz
    → (info' : Info) × (add_csv env (length front) info ≡ ok info')
      × (csv_text info' ≡ csv_text info ++ added_csv info.csv_fd text)
      × (length info'.cbuf ≤ info'.cbuf_sz)
      × (0 < info'.cbuf_sz)
      × SameTable info info'
unfolding add_csv
add_csv_lem env front text info stands e w pos h =
    let line : drop (length front) info.tbuf ≡ text =
      ap (drop (length front)) stands ∙ drop-append {0} front text in
    let (last, run, form, small, pos', same) = csv_loop_lem env text info w pos h in
    let csv_of : Outcome (List ℕ) → Outcome Info = λ o. o >>= λ bytes.
    csv_loop (length (drop (length front) bytes) + 2) env (drop (length front) bytes) info in
    let csv = csv_of (counted info) in
    elim (Option-cases info.csv_fd) [
      | inl none_open ↦ (
        info,
        ap (λ o. if_csv o (ok info) csv) none_open,
        sym (append-nil (csv_text info))
            ∙ ap (λ o. csv_text info ++ added_csv o text) (sym none_open),
        h,
        pos,
        (refl, refl, refl, refl, refl),
      )
      | inr (fd, open_) ↦ (
        last,
        ap (λ o. if_csv o (ok info) csv) open_
            ∙ ap csv_of (counted-whole info e)
            ∙ ap (λ l. csv_loop (length l + 2) env l info) line
            ∙ run,
        form ∙ ap (λ o. csv_text info ++ added_csv o text) (sym open_),
        small,
        pos',
        same,
      )
    ]

-- The end of `ct_add_line`, once the line stands in a buffer with room for it.
unfoldable pub count_line : Env → List ℕ → Info → Outcome Info
count_line env text ready =
    add_csv env ready.tbuf_cnt (record ready { tbuf_cnt = ready.tbuf_cnt + length text })

pub count_line_lem :
    (env : Env) (text : List ℕ) (info roomy : Info)
    → Valid info
    → env.write_ok ≡ true
    → Roomy text info roomy
    → (info' : Info) × (count_line env text (put_line text roomy) ≡ ok info')
      × Valid info'
      × (table_text info' ≡ table_text info ++ text)
      × (csv_text info' ≡ csv_text info ++ added_csv info.csv_fd text)
      × (info'.tbuf_sz ≡ roomy.tbuf_sz)
      × (info'.tbuf_cnt ≡ roomy.tbuf_cnt + length text)
      × (info'.csv_fd ≡ roomy.csv_fd)
unfolding count_line
count_line_lem env text info roomy v w (count, room, small, table, c1, c2, c3, c4) =
    let front = take roomy.tbuf_cnt roomy.tbuf in
    let lengths : length (front ++ text) ≡ roomy.tbuf_cnt + length text =
      omega (arith, length-append {0} front text, count) in
    let fits : length roomy.cbuf ≤ roomy.cbuf_sz =
      omega (arith, v.cbuf_fits, c2, ap (length {0}) c1) in
    let (last, run, form, in_cbuf, some_cbuf, (b1, b2, b3, b4, b5)) =
      add_csv_lem env front text (with_line text roomy) refl lengths w
        (omega (arith, v.cbuf_some, c2)) fits in
    let counts : length last.tbuf ≡ last.tbuf_cnt = ap (length {0}) b1 ∙ lengths ∙ sym b3 in
    (
      last,
      ap (count_line env text) (put_line-fits text roomy room)
          ∙ ap (λ n. add_csv env n (with_line text roomy)) (sym count)
          ∙ run,
      record {
        counts = counts;
        zero_fits = omega (arith, b2, b3);
        table_small = omega (arith, b2);
        cbuf_fits = in_cbuf;
        cbuf_some = some_cbuf;
      },
      ap (λ t. last.shown ++ t) (take-whole last.tbuf_cnt last.tbuf (omega (arith, counts)))
          ∙ (λ i. b4 i ++ b1 i)
          ∙ sym (append_assoc roomy.shown front text)
          ∙ ap (λ t. t ++ text) table,
      form ∙ (λ i. (c3 i ++ c1 i) ++ added_csv (c4 i) text),
      b2,
      b3,
      b5,
    )

-- `ct_add_line` loses nothing: the line is added to the table, written or waiting in the buffer, and
-- its csv form to the csv file if that is open, and the buffers stay in bounds. The line has at most
-- the length of what is left of the buffer, `write` succeeds, and the buffer can grow or holds
-- something to write out.
pub ct_add_line_lem :
    (env : Env) (text : List ℕ) (info : Info)
    → Valid info
    → env.write_ok ≡ true
    → length text ≤ info.tbuf_sz - info.tbuf_cnt
    → (0 < info.tbuf_cnt) ⊎ (grow_buf env info.tbuf_sz ≡ some (info.tbuf_sz * 2))
    → (info' : Info) × (ct_add_line env text info ≡ ok info')
      × Valid info'
      × (table_text info' ≡ table_text info ++ text)
      × (csv_text info' ≡ csv_text info ++ added_csv info.csv_fd text)
unfolding ct_add_line count_line
ct_add_line_lem env text info v w fits way =
    let (roomy, ready, room) = line_ready env text info v w fits way in
    let (last, run, valid, table, csv, size, count, fd) =
      count_line_lem env text info roomy v w room in
    (last, ap (λ (o : Outcome Info). o >>= count_line env text) ready ∙ run, valid, table, csv)

-- A line longer than what is left of the buffer is not noticed: with a csv file open, `ct_add_line`
-- then reads past the end of the buffer.
pub ct_add_line-overrun :
    (env : Env) (text : List ℕ) (info : Info) (fd : ℕ)
    → Valid info
    → info.csv_fd ≡ some fd
    → info.tbuf_sz - info.tbuf_cnt < length text
    → length text < 2 ^ 31
    → ct_add_line env text info ≡ fault
unfolding ct_add_line add_csv counted put_line
ct_add_line-overrun env text info fd v open_ long int_ =
    let unnoticed : exhausted (length text) info ≡ false =
      ground (arith, v.zero_fits, v.table_small) in
    let short : length
          (take info.tbuf_cnt info.tbuf ++ take (info.tbuf_sz - info.tbuf_cnt - 1) text)
        < info.tbuf_cnt + length text =
      ground (
        arith,
        length-append {0} (take info.tbuf_cnt info.tbuf)
            (take (info.tbuf_sz - info.tbuf_cnt - 1) text),
        length-take {0} info.tbuf_cnt info.tbuf,
        length-take {0} (info.tbuf_sz - info.tbuf_cnt - 1) text,
        v.zero_fits,
      ) in
    let read : ltb
          (length (take info.tbuf_cnt info.tbuf ++ take (info.tbuf_sz - info.tbuf_cnt - 1) text))
          (info.tbuf_cnt + length text)
        ≡ true =
      lt→ltb _ _ short in
    rw (unnoticed, read)
      (ap
        (λ o.
          if_csv o
            (ok (record (put_line text info) {
              tbuf_cnt = (put_line text info).tbuf_cnt + length text;
            }))
            fault)
        open_)
