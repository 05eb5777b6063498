-- ===== src/Pipeline/BatchContract/Examples.antt =====
-- The ingest check of crates/pipeline/src/batch_contract.rs on small batches; types are numbers.
use datacrate.Common.{
  ℕ, ◌≡◌, ◌↔◌, refl, true, false, List, [], ◌∷◌, some, ok, err, text, ◌==◌, ==_iff,
}
use datacrate.Contracts.Names.{str_eq}
use datacrate.Pipeline.IoError.{invalid_batch, null_values}
use datacrate.Pipeline.BatchContract.{
  Column, Arrow, validated_columns, check_fields, check_field, ingest_fields,
}
use datacrate.Pipeline.BatchContract.Accepts.{Ingest, validated_columns_iff}

abbrev arrow : Arrow ℕ (List ℕ) (List ℕ) (List ℕ)
arrow = record {
  int64 = 1;
  utf8 = 2;
  same_type = ◌==◌;
  as_int64 = λ a. some a;
  as_string = λ a. some a;
}

abbrev id : Column ℕ (List ℕ)
id = record {
  name = text "id";
  column_type = 1;
  is_nullable = false;
  null_count = 0;
  array = 7 ∷ [];
}

abbrev name : Column ℕ (List ℕ)
name = record {
  name = text "name";
  column_type = 2;
  is_nullable = false;
  null_count = 0;
  array = 8 ∷ [];
}

abbrev note : Column ℕ (List ℕ)
note = record {
  name = text "note";
  column_type = 2;
  is_nullable = true;
  null_count = 1;
  array = [];
}

validated_columns_iff_example :
    (validated_columns {E = ℕ} arrow (id ∷ name ∷ note ∷ []) ≡ ok (7 ∷ [], 8 ∷ [], []))
    ↔ Ingest ℕ arrow ==_iff (id ∷ name ∷ note ∷ []) (7 ∷ [], 8 ∷ [], [])
validated_columns_iff_example =
    validated_columns_iff ℕ arrow ==_iff (id ∷ name ∷ note ∷ []) (7 ∷ [], 8 ∷ [], [])

null_name :
    validated_columns {E = ℕ} arrow (id ∷ record name { null_count = 3 } ∷ note ∷ [])
    ≡ err (invalid_batch (null_values 1 3))
unfolding validated_columns check_fields check_field ingest_fields str_eq
null_name = refl
