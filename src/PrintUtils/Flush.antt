-- ===== src/PrintUtils/Flush.antt =====
-- common/ct_print_utils.c: what `ct_print_data` and `ct_fini_info` write.
use mathlib.Core.List.{append-nil}
use cray_tests.Prelude.{
  ℕ, ◌≡◌, inl, inr, refl, sym, ap, ◌∙◌, arith, true, Bool-cases, List, [], ◌∷◌, ◌++◌, length, ◌==◌,
  if◌then◌else◌, Outcome, ok, ◌>>=◌,
}
use cray_tests.PrintUtils.{Info, Env, write, show_table, show_csv, ct_fini_info}
use cray_tests.PrintUtils.Csv.{csv_text}
use cray_tests.PrintUtils.Lines.{Valid, table_text, all_counted}
use cray_tests.PrintUtils.Report.{counted-whole}

abbrev pub table_shown : Info → Info
table_shown info = record info { shown = info.shown ++ info.tbuf }

abbrev pub csv_shown : Info → Info
csv_shown info = record info { csv_written = info.csv_written ++ info.cbuf }

empty : (l : List ℕ) → length l ≡ 0 → l ≡ []
empty [] h = refl
empty (c ∷ l) h = absurd (omega arith)

show_table-shown :
    (env : Env) (info : Info)
    → Valid info
    → env.write_ok ≡ true
    → show_table env info ≡ ok (table_shown info)
unfolding show_table
show_table-shown env info v w =
    ap
      (λ (o : Outcome (List ℕ)). o >>= λ bytes.
        if info.tbuf_cnt == 0
        then ok info
        else write env (record info { shown = info.shown ++ bytes }))
      (counted-whole info v.counts)
    ∙ elim (Bool-cases (info.tbuf_cnt == 0)) [
      | inl none_counted ↦ rw none_counted (
          ap (λ t. ok (record info { shown = t }))
            (sym (append-nil info.shown)
              ∙ ap (λ t. info.shown ++ t) (sym (empty info.tbuf (ground (arith, v.counts))))))
      | inr some_counted ↦ rw (some_counted, w) refl
    ]

show_csv-shown :
    (env : Env) (info : Info) → env.write_ok ≡ true → show_csv env info ≡ ok (csv_shown info)
unfolding show_csv
show_csv-shown env info w = elim (Bool-cases (length info.cbuf == 0)) [
  | inl none_there ↦ rw none_there (
      ap (λ t. ok (record info { csv_written = t }))
        (sym (append-nil info.csv_written)
          ∙ ap (λ t. info.csv_written ++ t) (sym (empty info.cbuf (ground arith)))))
  | inr some_there ↦ rw (some_there, w) refl
]

-- `ct_fini_info` writes all that was added and not written yet, to the terminal and to the csv file,
-- when `write` succeeds.
pub ct_fini_info_lem :
    (env : Env) (info : Info)
    → Valid info
    → env.write_ok ≡ true
    → (last : Info) × (ct_fini_info env info ≡ ok last)
      × (last.shown ≡ table_text info)
      × (last.csv_written ≡ csv_text info)
unfolding ct_fini_info
ct_fini_info_lem env info v w = (
  csv_shown (table_shown info),
  ap (λ (o : Outcome Info). o >>= show_csv env) (show_table-shown env info v w)
      ∙ show_csv-shown env (table_shown info) w,
  ap (λ t. info.shown ++ t) (sym (all_counted info v)),
  refl,
)
