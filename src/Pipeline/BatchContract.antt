-- ===== src/Pipeline/BatchContract.antt =====
-- crates/pipeline/src/batch_contract.rs: the check of the fixed ingest schema. A batch is the list of
-- its columns, each with its field of the schema; `D` is Arrow's `DataType` with its equality, `Array`
-- its arrays, and the two downcasts are Arrow's.
pub mod Accepts
mod Examples
use datacrate.Common.{
  ℕ, zero, suc, Bool, true, false, not, ◌&&◌, List, [], ◌∷◌, Option, none, some, Result, ok, err,
  ◌>>=◌, ◌>>◌, Text, text, ◌==◌, if◌then◌else◌, match_option, length,
}
use datacrate.Contracts.Names.{str_eq}
use datacrate.Pipeline.IoError.{
  PipelineIoError, invalid_batch, BatchViolation, column_count, field_name, data_type, nullability,
  null_values, array_representation,
}

pub record Column (D Array : Type 0) : Type 0 where
  pub name : Text
  pub column_type : D
  pub is_nullable : Bool
  pub null_count : ℕ
  pub array : Array

-- What Arrow provides.
pub record Arrow (D Array Ints Strings : Type 0) : Type 0 where
  pub int64 : D
  pub utf8 : D
  pub same_type : D → D → Bool
  pub as_int64 : Array → Option Ints
  pub as_string : Array → Option Strings

pub record IngestField (D : Type 0) : Type 0 where
  pub name : Text
  pub dtype : D
  pub nullable : Bool

-- `INGEST_FIELDS`
unfoldable pub ingest_fields :
    {D Array Ints Strings : Type 0} → Arrow D Array Ints Strings → List (IngestField D)
ingest_fields arrow =
    record { name = text "id"; dtype = arrow.int64; nullable = false }
    ∷ record { name = text "name"; dtype = arrow.utf8; nullable = false }
    ∷ record { name = text "note"; dtype = arrow.utf8; nullable = true }
    ∷ []

-- `invalid`
abbrev pub invalid : {D E : Type 0} → BatchViolation D → PipelineIoError D E
invalid violation = invalid_batch violation

module _ {D E Array Ints Strings : Type 0} (arrow : Arrow D Array Ints Strings) where
  -- One turn of the loop over `INGEST_FIELDS`.
  unfoldable pub check_field :
      ℕ → IngestField D → Column D Array → Result (PipelineIoError D E) (Unit {0})
  check_field index expected column =
      if not (str_eq column.name expected.name)
      then err (invalid (field_name index expected.name column.name))
      else (if not (arrow.same_type column.column_type expected.dtype)
          then err (invalid (data_type index expected.dtype column.column_type))
          else (if not (if column.is_nullable then expected.nullable else not expected.nullable)
              then err (invalid (nullability index expected.nullable column.is_nullable))
              else (if not expected.nullable && not (column.null_count == 0)
                  then err (invalid (null_values index column.null_count))
                  else ok tt)))

  unfoldable pub downcast :
      {A : Type 0} → (Array → Option A) → ℕ → Column D Array → Result (PipelineIoError D E) A
  downcast cast index column =
      match_option (cast column.array) (err (invalid (array_representation index))) ok

  -- The loop over `INGEST_FIELDS`; a missing column has been refused before it.
  unfoldable pub check_fields :
      ℕ → List (IngestField D) → List (Column D Array) → Result (PipelineIoError D E) (Unit {0})
  check_fields index [] columns = ok tt
  check_fields index (expected ∷ fields) [] = ok tt
  check_fields index (expected ∷ fields) (column ∷ columns) =
      check_field index expected column >> check_fields (suc index) fields columns

  -- The three downcasts at its end.
  unfoldable pub typed_views :
      Column D Array
      → Column D Array
      → Column D Array
      → Result (PipelineIoError D E) (Ints × Strings × Strings)
  typed_views id name note = do
    ids ← downcast arrow.as_int64 0 id
    names ← downcast arrow.as_string 1 name
    notes ← downcast arrow.as_string 2 note
    ok (ids, names, notes)

  -- `validated_columns`
  unfoldable pub validated_columns :
      List (Column D Array) → Result (PipelineIoError D E) (Ints × Strings × Strings)
  validated_columns (id ∷ name ∷ note ∷ []) =
      check_fields 0 (ingest_fields arrow) (id ∷ name ∷ note ∷ []) >> typed_views id name note
  validated_columns columns = err (invalid (column_count 3 (length columns)))

  -- `validate_ingest_batch`
  unfoldable pub validate_ingest_batch :
      List (Column D Array) → Result (PipelineIoError D E) (Unit {0})
  validate_ingest_batch batch = validated_columns batch >>= λ _. ok tt
