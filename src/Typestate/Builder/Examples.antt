-- ===== src/Typestate/Builder/Examples.antt =====
-- A builder of crates/typestate/src/lib.rs whose stages keep the batch, and of one whose sink drops it.
use datacrate.Common.{
  ℕ, ◌≡◌, refl, true, false, Option, List, [], ◌∷◌, some, Result, ok, err, Text, text, ◌==◌,
}
use datacrate.Contracts.Names.{str_eq}
use datacrate.Pipeline.IoError.{invalid_batch, column_count}
use datacrate.Pipeline.Rows.{
  Record, fixture_to_record_batch, parse_rows, read_csv_rows, rows_from, batch_from_rows,
}
use datacrate.Pipeline.BatchContract.{
  Column, Arrow, validate_ingest_batch, validated_columns, check_fields, check_field, ingest_fields,
  downcast, typed_views,
}
use datacrate.Typestate.Builder.{
  Present, PipelineBuilder, new, with_source, with_transform, with_sink, Callback, build,
}

abbrev arrow : Arrow ℕ (List ℕ) (List ℕ) (List ℕ)
arrow = record {
  int64 = 1;
  utf8 = 2;
  same_type = ◌==◌;
  as_int64 = λ a. some a;
  as_string = λ a. some a;
}

abbrev column : Text → ℕ → List ℕ → Column ℕ (List ℕ)
column name column_type array = record {
  name = name;
  column_type = column_type;
  is_nullable = false;
  null_count = 0;
  array = array;
}

abbrev try_new : List ℕ → List Text → List (Option Text) → Result ℕ (List (Column ℕ (List ℕ)))
try_new ids names notes = ok (
    column (text "id") 1 ids
    ∷ column (text "name") 2 []
    ∷ record { name = text "note"; column_type = 2; is_nullable = true; null_count = 0; array = [] }
    ∷ [])

abbrev empty_file : Text → Result ℕ (List (Result ℕ Record))
empty_file path = ok []

abbrev keep : Callback ℕ ℕ (List ℕ)
keep batch = ok batch

abbrev drop_all : Callback ℕ ℕ (List ℕ)
drop_all batch = ok []

abbrev complete :
    PipelineBuilder
      (Present Text)
      (Present (Callback ℕ ℕ (List ℕ)))
      (Present (Callback ℕ ℕ (List ℕ)))
complete = with_sink drop_all (with_transform keep (with_source (text "in.csv") new))

bad_sink_refused : build arrow try_new empty_file complete ≡ err (invalid_batch (column_count 3 0))
unfolding build with_sink with_transform with_source new fixture_to_record_batch parse_rows
    read_csv_rows rows_from batch_from_rows validate_ingest_batch validated_columns check_fields
    check_field ingest_fields str_eq downcast typed_views
bad_sink_refused = refl

read_batch : List (Column ℕ (List ℕ))
read_batch =
    column (text "id") 1 []
    ∷ column (text "name") 2 []
    ∷ record { name = text "note"; column_type = 2; is_nullable = true; null_count = 0; array = [] }
    ∷ []

empty_file_built :
    build arrow try_new empty_file
      (with_sink keep (with_transform keep (with_source (text "in.csv") new)))
    ≡ ok read_batch
unfolding build with_sink with_transform with_source new fixture_to_record_batch parse_rows
    read_csv_rows rows_from batch_from_rows validate_ingest_batch validated_columns check_fields
    check_field ingest_fields str_eq downcast typed_views read_batch
empty_file_built = refl

-- A sink that differs from `keep` on a batch without columns only.
abbrev strict : Callback ℕ ℕ (List ℕ)
strict [] = err (invalid_batch (column_count 3 0))
strict (c ∷ batch) = ok (c ∷ batch)
