-- ===== src/Csv/Examples.antt =====
-- crates/csv-cli and crates/dtl-core on small inputs.
use datacrate.Common.{
  ◌≡◌, refl, sym, ap, Bool, true, false, List, [], ◌∷◌, ◌++◌, none, some, Result, ok, err, err_ok,
  Text, and_then, fail_with, select,
}
use datacrate.Csv.Select.{
  column_out_of_range, Args, Writer, Reader, select_field, select_and_write, write_records,
  write_selected_column, run,
}
use datacrate.Csv.Select.Output.{WriterLaws, Selected, lines_of, run-Selected}
use datacrate.Csv.Batch.{
  CsvBatch, has_bytes, extend_first, split, parse, record_at, record_count, join, AllFree,
  parse-join,
}

-- An output that is the list of its rows.
abbrev rows_writer : Writer (List (List Text)) (Unit {0})
rows_writer = record { write_record = λ row s. (ok tt, s ++ row ∷ []); flush = λ s. (ok tt, s) }

rows_writer-laws : WriterLaws rows_writer (λ s. s)
rows_writer-laws = record {
  written = λ row s t h. sym (ap (λ p. p.1) h);
  refused = λ row s t e h. absurd (err_ok (sym (ap (λ p. p.0) h)));
  flushed = λ s. refl;
}

-- Two good records, the second with a single field, and a header row.
abbrev two_records : Reader (Unit {0})
two_records = record {
  headers = ok ((1 ∷ []) ∷ (2 ∷ []) ∷ []);
  records = ok ((3 ∷ []) ∷ (4 ∷ []) ∷ []) ∷ ok ((5 ∷ []) ∷ []) ∷ [];
}

abbrev opened : Bool → Text → Result (Unit {0}) (Reader (Unit {0}))
opened has_headers path = ok two_records

abbrev second_column : Args
second_column = record { input = 7 ∷ []; column = 1; no_headers = false }

stops_at_short_record :
    run rows_writer opened second_column []
    ≡ (err (column_out_of_range 1 1), ((2 ∷ []) ∷ []) ∷ ((4 ∷ []) ∷ []) ∷ [])
unfolding run write_selected_column write_records select_and_write select_field and_then fail_with
stops_at_short_record = refl

run-Selected_example :
    Selected rows_writer
      (λ s. s)
      rows_writer-laws
      1
      []
      (lines_of rows_writer (λ s. s) rows_writer-laws 1 two_records true)
      (run rows_writer opened second_column [])
run-Selected_example =
    run-Selected rows_writer (λ s. s) rows_writer-laws opened second_column two_records [] refl

-- `a,b`, a second and an empty row, and a delimiter at the end.
abbrev three_lines : List Text
three_lines = (97 ∷ 44 ∷ 98 ∷ []) ∷ (99 ∷ []) ∷ [] ∷ []

abbrev three_batch : CsvBatch
three_batch = record { records = (97 ∷ 44 ∷ 98 ∷ []) ∷ (99 ∷ []) ∷ [] }

two_rows : parse (97 ∷ 44 ∷ 98 ∷ 10 ∷ 99 ∷ 10 ∷ []) 10 ≡ three_batch
unfolding parse split extend_first has_bytes
two_rows = refl

rows_counted : record_count three_batch ≡ 2
unfolding record_count
rows_counted = refl

row_out_of_range : record_at some three_batch 2 ≡ none
unfolding record_at
row_out_of_range = refl

three_lines-AllFree : AllFree 10 three_lines
three_lines-AllFree = ((refl, (refl, (refl, tt))), ((refl, tt), (tt, tt)))

parse-join_example : (parse (join 10 three_lines) 10).records ≡ select has_bytes three_lines
parse-join_example = parse-join 10 three_lines three_lines-AllFree
