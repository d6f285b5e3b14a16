-- ===== src/PrintUtils/Tests.antt =====
-- common/ct_print_utils.c: a line of a table, and the theorems at inputs that meet their hypotheses.
use cray_tests.Prelude.{
  ℕ, ◌≡◌, inl, refl, arith, true, false, some, none, List, [], ◌∷◌, ◌++◌, ok, fault,
}
use cray_tests.PrintUtils.{
  test_name_text, Info, Env, ct_init_info, started_info, ct_add_line, csv_char,
}
use cray_tests.PrintUtils.Csv.{to_csv, csv_text}
use cray_tests.PrintUtils.Lines.{Valid, table_text}
use cray_tests.PrintUtils.Report.{added_csv, ct_add_line_lem, ct_add_line-overrun}

-- "12  7\n"
abbrev line : List ℕ
line = 49 ∷ 50 ∷ 32 ∷ 32 ∷ 55 ∷ 10 ∷ []

-- "12,7\n"
to_csv-line : to_csv line ≡ 49 ∷ 50 ∷ 44 ∷ 55 ∷ 10 ∷ []
unfolding to_csv csv_char
to_csv-line = refl

-- Two bytes of the line stand in a buffer of eight, and in one of two for the csv file.
abbrev started : Info
started = record {
  tbuf = 49 ∷ 10 ∷ [];
  tbuf_sz = 8;
  tbuf_cnt = 2;
  cbuf = 49 ∷ 10 ∷ [];
  cbuf_sz = 2;
  csv_fd = some 3;
  shown = [];
  csv_written = [];
}

started-Valid : Valid started
started-Valid = record {
  counts = refl;
  zero_fits = omega arith;
  table_small = omega arith;
  cbuf_fits = omega arith;
  cbuf_some = omega arith;
}

abbrev no_memory : Env
no_memory = record { realloc = λ _. false; write_ok = true }

-- A newline is put at the end of a name without one, and a zero is written after one that has it.
test_name_text-added : test_name_text (65 ∷ []) ≡ 65 ∷ 10 ∷ []
unfolding test_name_text
test_name_text-added = refl

test_name_text-zero : test_name_text (65 ∷ 10 ∷ []) ≡ 65 ∷ 10 ∷ 0 ∷ []
unfolding test_name_text
test_name_text-zero = refl

-- Without a path the csv file is descriptor 0.
ct_init_info-no_path :
    ct_init_info no_memory (some (65 ∷ [])) none ≡ ok (some (started_info (65 ∷ []) (some 0)))
unfolding ct_init_info
ct_init_info-no_path = refl

-- The line fills the buffer, which cannot grow.
ct_add_line_lem_example :
    (info' : Info) × (ct_add_line no_memory line started ≡ ok info')
    × Valid info'
    × (table_text info' ≡ table_text started ++ line)
    × (csv_text info' ≡ csv_text started ++ added_csv (some 3) line)
ct_add_line_lem_example =
    ct_add_line_lem no_memory line started started-Valid refl (omega arith) (inl (omega arith))

ct_add_line-overrun_example : ct_add_line no_memory (line ++ line) started ≡ fault
ct_add_line-overrun_example =
    ct_add_line-overrun no_memory (line ++ line) started 3 started-Valid refl (omega arith)
      (omega arith)
