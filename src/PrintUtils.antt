-- ===== src/PrintUtils.antt =====
-- common/ct_print_utils.c: the buffers for the table and for its csv form. A text is the list of
-- the codes of its characters, and `vsnprintf` is given by the text that it makes; `write` writes
-- all or fails.
pub mod Csv
pub mod CsvLoop
pub mod Flush
pub mod Lines
pub mod Report
pub mod Session
mod Tests
use cray_tests.Prelude.{
  ℕ, zero, suc, ◌+◌, ◌-◌, ◌*◌, ◌%◌, ◌^◌, Bool, true, false, ◌&&◌, ◌||◌, not, Option, none, some,
  List, [], ◌∷◌, ◌++◌, length, take, drop, ◌==◌, ltb, if◌then◌else◌, Outcome, ok, aborted, fault,
  ◌>>=◌,
}

abbrev pub init_buf_len : ℕ
init_buf_len = 4096

abbrev pub max_buf_len : ℕ
max_buf_len = 4096 * 4096 * 64

-- `struct info`, with what was written so far. `tbuf` and `cbuf` are the bytes that stand in the
-- buffers, `cbuf_cnt` is the length of `cbuf`; `csv_fd` is `none` for -1.
pub record Info : Type 0 where
  pub tbuf : List ℕ
  pub tbuf_sz : ℕ
  pub tbuf_cnt : ℕ
  pub cbuf : List ℕ
  pub cbuf_sz : ℕ
  pub csv_fd : Option ℕ
  pub shown : List ℕ
  pub csv_written : List ℕ

-- Whether `realloc` gives a buffer of a size, and whether `write` succeeds.
pub record Env : Type 0 where
  pub realloc : ℕ → Bool
  pub write_ok : Bool

abbrev pub write {ℓ} : {A : Type ℓ} → Env → A → Outcome A
write env a = if env.write_ok then ok a else aborted

-- What `open` makes of `csv_path`: a descriptor, no file of that name, or another error.
pub data Opened : Type 0 where
  opened : ℕ → Opened
  missing : Opened
  failed : Opened

-- `strchr (test_name, '\n')`
abbrev pub has_newline : List ℕ → Bool
has_newline [] = false
has_newline (c ∷ name) = c == 10 || has_newline name

-- The first `strlen (test_name) + 1` bytes of `info->test_name`: with the newline that was put at
-- the end, or with the zero there if `test_name` has one already.
unfoldable pub test_name_text : List ℕ → List ℕ
test_name_text name = if has_newline name then name ++ 0 ∷ [] else name ++ 10 ∷ []

-- The structure once the buffers are allocated.
abbrev pub started_info : List ℕ → Option ℕ → Info
started_info name csv_fd = record {
  tbuf = [];
  tbuf_sz = init_buf_len;
  tbuf_cnt = 0;
  cbuf = [];
  cbuf_sz = init_buf_len;
  csv_fd = csv_fd;
  shown = test_name_text name;
  csv_written = [];
}

-- `csv_path` may be NULL, and then `csv_fd` keeps the 0 of `calloc`. The result is `none` for NULL.
abbrev pub open_csv : List ℕ → Option Opened → Option Info
open_csv name none = some (started_info name (some 0))
open_csv name (some (Opened.opened fd)) = some (started_info name (some fd))
open_csv name (some Opened.missing) = some (started_info name none)
open_csv name (some Opened.failed) = none

unfoldable pub ct_init_info : Env → Option (List ℕ) → Option Opened → Outcome (Option Info)
ct_init_info env none csv_path = ok none
ct_init_info env (some test_name) csv_path = write env (open_csv test_name csv_path)

-- `none` for -1. At the largest size, 2 ^ 30, the product wraps to a negative `int`, and `realloc` is
-- asked for more bytes than there are: -1 as well.
unfoldable pub grow_buf : Env → ℕ → Option ℕ
grow_buf env cur_sz =
    if ltb max_buf_len (cur_sz * 2)
    then none
    else if env.realloc (cur_sz * 2)
    then some (cur_sz * 2)
    else none

-- `isspace`
abbrev pub is_space : ℕ → Bool
is_space c = c == 32 || (ltb 8 c && ltb c 14)

-- The character at `t + 1`; after the last one stands the zero of `vsnprintf`.
abbrev pub next_is_space : List ℕ → Bool
next_is_space [] = false
next_is_space (c ∷ line) = is_space c

-- What a character of the table becomes in the csv form: the last of several blanks is a comma.
unfoldable pub csv_char : ℕ → List ℕ → List ℕ
csv_char c line =
    if is_space c && not (c == 10) then (if next_is_space line then [] else 44 ∷ []) else c ∷ []

-- The inner loop: the characters that are left when `cbuf` is full, and `cbuf`.
unfoldable pub csv_fill : ℕ → List ℕ → List ℕ → List ℕ × List ℕ
unfolding csv_char
csv_fill cbuf_sz [] cbuf = ([], cbuf)
csv_fill cbuf_sz (c ∷ line) cbuf =
    let rest = csv_fill cbuf_sz line (cbuf ++ csv_char c line) in
    if ltb (length cbuf) cbuf_sz then rest else (c ∷ line, cbuf)

-- A full `cbuf` grows, or is written out.
abbrev pub cbuf_grown : Env → Info → Option ℕ → Outcome Info
cbuf_grown env info (some size) = ok (record info { cbuf_sz = size })
cbuf_grown env info none =
    write env (record info { cbuf = []; csv_written = info.csv_written ++ info.cbuf })

unfoldable pub make_room : Env → Info → Outcome Info
make_room env info = cbuf_grown env info (grow_buf env info.cbuf_sz)

-- The round is the last one when no character is left.
abbrev pub csv_rest : List ℕ → Info → Outcome Info → Outcome Info
csv_rest [] filled next = ok filled
csv_rest (c ∷ left) filled next = next

-- The outer loop over the characters of the line that are left.
unfoldable pub csv_loop : ℕ → Env → List ℕ → Info → Outcome Info
csv_loop zero env line info = fault
csv_loop (suc fuel) env [] info = ok info
csv_loop (suc fuel) env (c ∷ line) info =
    let (left, cbuf) = csv_fill info.cbuf_sz (c ∷ line) info.cbuf in
    let filled = record info { cbuf = cbuf } in
    csv_rest left filled (make_room env filled >>= csv_loop fuel env left)

-- `vsnprintf` into what is left of `tbuf`: all of the line, or as much as fits before the zero.
unfoldable pub put_line : List ℕ → Info → Info
put_line text info = record info {
  tbuf = take info.tbuf_cnt info.tbuf ++ take (info.tbuf_sz - info.tbuf_cnt - 1) text;
}

-- `info->tbuf_sz - info->tbuf_cnt - tbw == 0`
abbrev pub exhausted : ℕ → Info → Bool
exhausted tbw info = (info.tbuf_sz + 2 ^ 64 + 2 ^ 64 - info.tbuf_cnt - tbw) % 2 ^ 64 == 0

-- An exhausted `tbuf` grows, or is written out, or the program ends.
abbrev pub tbuf_grown : Env → Info → Option ℕ → Outcome Info
tbuf_grown env info (some size) = ok (record info { tbuf_sz = size })
tbuf_grown env info none =
    if info.tbuf_cnt == 0
    then aborted
    else write env
        (record info { tbuf_cnt = 0; shown = info.shown ++ take info.tbuf_cnt info.tbuf })

unfoldable pub make_line_room : Env → Info → Outcome Info
make_line_room env info = tbuf_grown env info (grow_buf env info.tbuf_sz)

unfoldable pub line_loop : ℕ → Env → List ℕ → Info → Outcome Info
unfolding make_line_room put_line
line_loop zero env text info = fault
line_loop (suc fuel) env text info = do
  roomy ← make_line_room env info
  let again = put_line text roomy
  let rest = line_loop fuel env text again
  if exhausted (length text) again then rest else ok again

-- The bytes of `tbuf` that are counted; a count beyond those that stand there is a read of others.
unfoldable pub counted : Info → Outcome (List ℕ)
counted info =
    if ltb (length info.tbuf) info.tbuf_cnt then fault else ok (take info.tbuf_cnt info.tbuf)

-- `if (info->csv_fd != -1)`
abbrev pub if_csv : Option ℕ → Outcome Info → Outcome Info → Outcome Info
if_csv none without with_csv = without
if_csv (some fd) without with_csv = with_csv

-- The second half of `ct_add_line`, from character `t` of the table on.
unfoldable pub add_csv : Env → ℕ → Info → Outcome Info
unfolding csv_loop counted
add_csv env t info =
    let csv =
      counted info >>= λ bytes. csv_loop (length (drop t bytes) + 2) env (drop t bytes) info in
    if_csv info.csv_fd (ok info) csv

-- `text` is what the format makes of the arguments. After a flush the line fits or the program
-- ends, so two rounds of the loop are enough.
unfoldable pub ct_add_line : Env → List ℕ → Info → Outcome Info
unfolding put_line line_loop add_csv
ct_add_line env text info =
    let first = put_line text info in
    let looped = line_loop 2 env text first in
    do
      ready ← (if exhausted (length text) first then looped else ok first)
      add_csv env ready.tbuf_cnt (record ready { tbuf_cnt = ready.tbuf_cnt + length text })

-- What is counted is written to the terminal, and what waits for the csv file to that file; neither
-- is taken from its buffer.
unfoldable pub show_table : Env → Info → Outcome Info
show_table env info = do
  bytes ← counted info
  let table_shown = record info { shown = info.shown ++ bytes }
  if info.tbuf_cnt == 0 then ok info else write env table_shown

unfoldable pub show_csv : Env → Info → Outcome Info
show_csv env info =
    let csv_shown = record info { csv_written = info.csv_written ++ info.cbuf } in
    if length info.cbuf == 0 then ok info else write env csv_shown

unfoldable pub ct_print_data : Env → Info → Outcome Info
ct_print_data env info =
    show_table env info >>= λ shown. if_csv shown.csv_fd (ok shown) (show_csv env shown)

-- What `ct_fini_info` has written when it frees the structure; the csv file is written to whether
-- it is open or not.
unfoldable pub ct_fini_info : Env → Info → Outcome Info
ct_fini_info env info = show_table env info >>= show_csv env
