-- ===== src/PrintUtils/Session.antt =====
-- common/ct_print_utils.c: a program's use of it, from `ct_init_info` over its lines to
-- `ct_fini_info`.
use cray_tests.Prelude.{ℕ, Option, none, some, List, [], ◌∷◌, ◌++◌, Outcome, ok, ◌>>=◌}
use cray_tests.PrintUtils.{Info, Env, Opened, ct_init_info, ct_add_line, ct_fini_info}
use cray_tests.PrintUtils.Report.{added_csv}

-- The calls of `ct_add_line` of a program.
unfoldable pub add_lines : Env → List (List ℕ) → Info → Outcome Info
add_lines env [] info = ok info
add_lines env (text ∷ texts) info = ct_add_line env text info >>= add_lines env texts

-- What a program makes of the structure: NULL ends it.
abbrev pub with_info : Env → List (List ℕ) → Option Info → Outcome (Option Info)
with_info env texts none = ok none
with_info env texts (some info) =
    add_lines env texts info >>= λ added. ct_fini_info env added >>= λ last. ok (some last)

abbrev pub session : Env → List ℕ → Option Opened → List (List ℕ) → Outcome (Option Info)
session env test_name csv_path texts =
    ct_init_info env (some test_name) csv_path >>= with_info env texts

-- The lines one after the other, and the forms that they take in the csv file.
abbrev pub all_lines : List (List ℕ) → List ℕ
all_lines [] = []
all_lines (text ∷ texts) = text ++ all_lines texts

abbrev pub all_csv : Option ℕ → List (List ℕ) → List ℕ
all_csv fd [] = []
all_csv fd (text ∷ texts) = added_csv fd text ++ all_csv fd texts
