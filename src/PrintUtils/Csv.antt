-- ===== src/PrintUtils/Csv.antt =====
-- common/ct_print_utils.c: the csv form of a line, and one round of the loop that makes it.
use mathlib.Core.List.{append_assoc, append-nil}
use cray_tests.Prelude.{
  ℕ, ◌*◌, ◌<◌, ◌≤◌, ◌≡◌, inl, inr, refl, ◌∙◌, arith, true, Bool-cases, Option-cases, some, List, [],
  ◌∷◌, ◌++◌, length, length-append, ltb, ok,
}
use cray_tests.PrintUtils.{Info, Env, max_buf_len, grow_buf, csv_char, csv_fill, make_room}

-- The csv form of a whole line.
unfoldable pub to_csv : List ℕ → List ℕ
to_csv [] = []
to_csv (c ∷ line) = csv_char c line ++ to_csv line

pub to_csv_nil : to_csv [] ≡ []
unfolding to_csv
to_csv_nil = refl

csv_char-short : (c : ℕ) (line : List ℕ) → length (csv_char c line) ≤ 1
unfolding csv_char
csv_char-short c line = ground arith

-- What one round leaves: the rest of the form, no more than the buffer holds, and a shorter line.
pub csv_fill_lem :
    (cbuf_sz : ℕ) (line cbuf : List ℕ)
    → length cbuf ≤ cbuf_sz
    → let (left, cbuf') = csv_fill cbuf_sz line cbuf in
      (cbuf' ++ to_csv left ≡ cbuf ++ to_csv line)
      × (length cbuf' ≤ cbuf_sz)
      × (length left ≤ length line)
unfolding csv_fill to_csv
csv_fill_lem cbuf_sz [] cbuf h = (refl, h, omega arith)
csv_fill_lem cbuf_sz (c ∷ line) cbuf h = elim (Bool-cases (ltb (length cbuf) cbuf_sz)) [
  | inl e ↦
      let room : length cbuf < cbuf_sz = ground arith in
      let (form, small, shorter) =
        csv_fill_lem cbuf_sz line (cbuf ++ csv_char c line)
          (omega (arith, length-append {0} cbuf (csv_char c line), csv_char-short c line)) in
      rw e (form ∙ append_assoc cbuf (csv_char c line) (to_csv line), small, omega arith)
  | inr e ↦ rw e (refl, h, omega arith)
]

pub csv_fill-progress :
    (cbuf_sz c : ℕ) (line cbuf : List ℕ)
    → length cbuf < cbuf_sz
    → length (csv_fill cbuf_sz (c ∷ line) cbuf).0 ≤ length line
unfolding csv_fill
csv_fill-progress cbuf_sz c line cbuf h =
    let room : ltb (length cbuf) cbuf_sz ≡ true = ground arith in
    rw room (
      (csv_fill_lem cbuf_sz line (cbuf ++ csv_char c line)
        (omega (arith, length-append {0} cbuf (csv_char c line), csv_char-short c line))).2)

-- The csv file with what waits in the buffer.
abbrev pub csv_text : Info → List ℕ
csv_text info = info.csv_written ++ info.cbuf

-- What else of the structure stays.
abbrev pub SameTable : Info → Info → Type 0
SameTable info info' =
    (info'.tbuf ≡ info.tbuf)
    × (info'.tbuf_sz ≡ info.tbuf_sz)
    × (info'.tbuf_cnt ≡ info.tbuf_cnt)
    × (info'.shown ≡ info.shown)
    × (info'.csv_fd ≡ info.csv_fd)

pub grow_buf-max :
    (env : Env) (cur_sz size : ℕ) → grow_buf env cur_sz ≡ some size → size ≤ max_buf_len
unfolding grow_buf
grow_buf-max env cur_sz size e = elim (Bool-cases (ltb max_buf_len (cur_sz * 2))) [
  | inl over ↦ absurd (ground arith)
  | inr fits ↦ ground arith
]

pub grow_buf-double :
    (env : Env) (cur_sz size : ℕ) → grow_buf env cur_sz ≡ some size → size ≡ cur_sz * 2
unfolding grow_buf
grow_buf-double env cur_sz size e = elim (Bool-cases (ltb max_buf_len (cur_sz * 2))) [
  | inl over ↦ absurd (ground arith)
  | inr fits ↦ ground arith
]

-- After a full round there is room again, and nothing is lost.
pub make_room_lem :
    (env : Env) (info : Info)
    → env.write_ok ≡ true
    → 0 < info.cbuf_sz
    → length info.cbuf ≤ info.cbuf_sz
    → (info' : Info) × (make_room env info ≡ ok info')
      × (csv_text info' ≡ csv_text info)
      × (length info'.cbuf < info'.cbuf_sz)
      × SameTable info info'
unfolding make_room
make_room_lem env info w pos h = elim (Option-cases (grow_buf env info.cbuf_sz)) [
  | inl e ↦ (
    record info { cbuf = []; csv_written = info.csv_written ++ info.cbuf },
    rw (e, w) refl,
    append-nil (info.csv_written ++ info.cbuf),
    pos,
    (refl, refl, refl, refl, refl),
  )
  | inr (size, e) ↦ (
    record info { cbuf_sz = size },
    rw e refl,
    refl,
    omega (arith, grow_buf-double env info.cbuf_sz size e),
    (refl, refl, refl, refl, refl),
  )
]
