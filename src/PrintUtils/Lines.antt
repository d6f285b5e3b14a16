-- ===== src/PrintUtils/Lines.antt =====
-- common/ct_print_utils.c: the loop of `ct_add_line` that finds room for a line in the buffer.
use mathlib.Core.List.{append-nil}
use cray_tests.Prelude.{
  ℕ, zero, suc, ◌-◌, ◌*◌, ◌^◌, ◌<◌, ◌≤◌, ◌≡◌, ◌⊎◌, inl, inr, refl, sym, ap, ◌∙◌, arith, true, false,
  Bool-cases, Option-cases, some, List, [], ◌∷◌, ◌++◌, length, take, take-length, take-append, ◌==◌,
  if◌then◌else◌, ok,
}
use cray_tests.PrintUtils.{Info, Env, grow_buf, put_line, exhausted, make_line_room, line_loop}
use cray_tests.PrintUtils.Csv.{grow_buf-double, grow_buf-max}

-- The structure between two calls: the counted bytes stand in `tbuf` with room for a zero, `cbuf` is
-- in bounds, and the sizes are those of buffers.
pub record Valid (info : Info) : Type 0 where
  pub counts : length info.tbuf ≡ info.tbuf_cnt
  pub zero_fits : info.tbuf_cnt < info.tbuf_sz
  pub table_small : info.tbuf_sz < 2 ^ 32
  pub cbuf_fits : length info.cbuf ≤ info.cbuf_sz
  pub cbuf_some : 0 < info.cbuf_sz

-- The table that was written and what waits in the buffer.
abbrev pub table_text : Info → List ℕ
table_text info = info.shown ++ take info.tbuf_cnt info.tbuf

pub take-whole : (n : ℕ) (xs : List ℕ) → length xs ≤ n → take n xs ≡ xs
take-whole zero [] h = refl
take-whole zero (x ∷ xs) h = absurd (omega arith)
take-whole (suc n) [] h = refl
take-whole (suc n) (x ∷ xs) h = ap (λ t. x ∷ t) (take-whole n xs (omega arith))

-- A buffer is exhausted exactly when the line and what stands before it fill it up.
exhausted_iff :
    (tbw : ℕ) (info : Info)
    → info.tbuf_sz < 2 ^ 33
    → info.tbuf_cnt ≤ info.tbuf_sz
    → tbw ≤ info.tbuf_sz - info.tbuf_cnt
    → exhausted tbw info ≡ (tbw == info.tbuf_sz - info.tbuf_cnt)
exhausted_iff tbw info big fits h = ground arith

-- The line is put after what stands in the buffer, when both and a zero fit.
pub put_line-fits :
    (text : List ℕ) (info : Info)
    → length text < info.tbuf_sz - info.tbuf_cnt
    → put_line text info ≡ record info { tbuf = take info.tbuf_cnt info.tbuf ++ text }
unfolding put_line
put_line-fits text info h =
    ap (λ t. record info { tbuf = take info.tbuf_cnt info.tbuf ++ t })
      (take-whole _ text (omega arith))

-- What is left out of the buffer that the line goes into.
abbrev pub Roomy : List ℕ → Info → Info → Type 0
Roomy text info roomy =
    (length (take roomy.tbuf_cnt roomy.tbuf) ≡ roomy.tbuf_cnt)
    × (length text < roomy.tbuf_sz - roomy.tbuf_cnt)
    × (roomy.tbuf_sz < 2 ^ 32)
    × (table_text roomy ≡ table_text info)
    × (roomy.cbuf ≡ info.cbuf)
    × (roomy.cbuf_sz ≡ info.cbuf_sz)
    × (roomy.csv_written ≡ info.csv_written)
    × (roomy.csv_fd ≡ info.csv_fd)

-- The counted bytes are still there after a line that was cut off.
put_line-prefix :
    (text : List ℕ) (info : Info)
    → Valid info
    → take info.tbuf_cnt (put_line text info).tbuf ≡ info.tbuf
unfolding put_line
put_line-prefix text info v =
    rw (sym (v.counts), take-length {0} info.tbuf) (take-append {0} info.tbuf _)

pub all_counted : (info : Info) → Valid info → take info.tbuf_cnt info.tbuf ≡ info.tbuf
all_counted info v = take-whole info.tbuf_cnt info.tbuf (omega (arith, v.counts))

-- The size of the buffer or its count change until the line fits.
make_line_room-Roomy :
    (env : Env) (text : List ℕ) (info : Info)
    → Valid info
    → env.write_ok ≡ true
    → length text ≡ info.tbuf_sz - info.tbuf_cnt
    → (0 < info.tbuf_cnt) ⊎ (grow_buf env info.tbuf_sz ≡ some (info.tbuf_sz * 2))
    → (roomy : Info) × (make_line_room env (put_line text info) ≡ ok roomy) × Roomy text info roomy
unfolding make_line_room put_line
make_line_room-Roomy env text info v w full way =
    let kept : take info.tbuf_cnt (put_line text info).tbuf ≡ take info.tbuf_cnt info.tbuf =
      put_line-prefix text info v ∙ sym (all_counted info v) in
    elim (Option-cases (grow_buf env info.tbuf_sz)) [
      | inl e ↦
          let some_bytes : 0 < info.tbuf_cnt = elim way [ inl p ↦ p | inr g ↦ absurd (cc) ] in
          let nonzero : (info.tbuf_cnt == 0) ≡ false = ground arith in
          (
            record (put_line text info) {
              tbuf_cnt = 0;
              shown = info.shown ++ take info.tbuf_cnt (put_line text info).tbuf;
            },
            rw (e, nonzero, w) refl,
            (
              refl,
              omega (arith, v.zero_fits),
              v.table_small,
              append-nil _ ∙ ap (λ t. info.shown ++ t) kept,
              refl,
              refl,
              refl,
              refl,
            ),
          )
      | inr (size, e) ↦ (
        record (put_line text info) { tbuf_sz = size },
        rw e refl,
        (
          ap (length {0}) kept ∙ ap (length {0}) (all_counted info v) ∙ v.counts,
          omega (arith, v.zero_fits, grow_buf-double env info.tbuf_sz size e),
          omega (arith, grow_buf-max env info.tbuf_sz size e),
          ap (λ t. info.shown ++ t) kept,
          refl,
          refl,
          refl,
          refl,
        ),
      )
    ]

pub not_exhausted :
    (text : List ℕ) (info : Info)
    → length text < info.tbuf_sz - info.tbuf_cnt
    → info.tbuf_sz < 2 ^ 32
    → exhausted (length text) (put_line text info) ≡ false
unfolding put_line
not_exhausted text info h small =
    exhausted_iff (length text) info (omega arith) (omega arith) (omega arith) ∙ ground arith

when_exhausted :
    (text : List ℕ) (info : Info)
    → Valid info
    → length text ≡ info.tbuf_sz - info.tbuf_cnt
    → exhausted (length text) (put_line text info) ≡ true
unfolding put_line
when_exhausted text info v e =
    exhausted_iff (length text) info (omega (arith, v.table_small)) (omega (arith, v.zero_fits))
      (omega arith)
    ∙ ground arith

-- A buffer that a shorter line goes into as it is.
pub enough_room :
    (text : List ℕ) (info : Info)
    → Valid info
    → length text < info.tbuf_sz - info.tbuf_cnt
    → Roomy text info info
enough_room text info v room = (
  ap (length {0}) (all_counted info v) ∙ v.counts,
  room,
  v.table_small,
  refl,
  refl,
  refl,
  refl,
  refl,
)

-- The line goes whole into a buffer with room for it, after at most one growth or flush.
pub line_ready :
    (env : Env) (text : List ℕ) (info : Info)
    → Valid info
    → env.write_ok ≡ true
    → length text ≤ info.tbuf_sz - info.tbuf_cnt
    → (0 < info.tbuf_cnt) ⊎ (grow_buf env info.tbuf_sz ≡ some (info.tbuf_sz * 2))
    → (roomy : Info) × ((if exhausted (length text) (put_line text info)
          then line_loop 2 env text (put_line text info)
          else ok (put_line text info))
        ≡ ok (put_line text roomy))
      × Roomy text info roomy
unfolding line_loop
line_ready env text info v w fits way =
    elim (Bool-cases (length text == info.tbuf_sz - info.tbuf_cnt)) [
      | inl e ↦
          let (roomy, made, room) = make_line_room-Roomy env text info v w (ground arith) way in
          let again : exhausted (length text) (put_line text roomy) ≡ false =
            not_exhausted text roomy (room.1) (room.2) in
          (roomy, rw (when_exhausted text info v (ground arith), made, again) refl, room)
      | inr e ↦ (
        info,
        rw (not_exhausted text info (ground arith) v.table_small) refl,
        enough_room text info v (ground arith),
      )
    ]
