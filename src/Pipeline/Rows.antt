-- ===== src/Pipeline/Rows.antt =====
-- crates/pipeline/src/lib.rs: the rows of a CSV file and their batches. A record is the list of its
-- fields; the CSV reader is `csv`'s and gives a record or an error for each line, and
-- `RecordBatch::try_new` is Arrow's.
pub mod Chunks
pub mod Reading
use datacrate.Common.{
  ℕ, zero, suc, ◌+◌, ◌-◌, ◌*◌, ◌%◌, ◌^◌, Bool, true, false, ◌&&◌, List, [], ◌∷◌, map, Option, none,
  some, Result, ok, err, ◌>>=◌, map_err, Text, ltb, leb, ◌==◌, if◌then◌else◌, match_option,
  get_elem?, length, take,
}
use datacrate.Pipeline.IoError.{PipelineIoError, open_input, read_record, invalid_id, build_batch}
use datacrate.Pipeline.Manifest.{Row}

abbrev pub Record : Type 0
Record = List Text

-- The value of a run of decimal digits, after `value`.
unfoldable pub digits : ℕ → Text → Option ℕ
digits value [] = some value
digits value (c ∷ cs) = if leb 48 c && leb c 57 then digits (10 * value + (c - 48)) cs else none

-- A sign's magnitude: at least one digit, and at most `limit`.
unfoldable pub magnitude : ℕ → Text → Option ℕ
magnitude limit [] = none
magnitude limit (c ∷ cs) =
    match_option (digits 0 (c ∷ cs)) none λ n. if leb n limit then some n else none

-- `str::parse::<i64>`, as the two's complement.
unfoldable pub parse_i64 : Text → Option ℕ
parse_i64 [] = none
parse_i64 (c ∷ cs) =
    if c == 45
    then match_option (magnitude (2 ^ 63) cs) none (λ n. some ((2 ^ 64 - n) % 2 ^ 64))
    else magnitude (2 ^ 63 - 1) (if c == 43 then cs else c ∷ cs)

-- `record.get(i).unwrap_or_default()`
unfoldable pub field_or_empty : Record → ℕ → Text
field_or_empty record_fields i = match_option (get_elem? record_fields i) [] λ value. value

-- An empty note is a null.
unfoldable pub note_of : Text → Option Text
note_of [] = none
note_of (c ∷ cs) = some (c ∷ cs)

-- `[T]::chunks(n)`, on enough fuel.
unfoldable pub drop : {A : Type 0} → ℕ → List A → List A
drop zero xs = xs
drop (suc n) [] = []
drop (suc n) (x ∷ xs) = drop n xs

unfoldable pub chunks_within : {A : Type 0} → ℕ → ℕ → List A → List (List A)
chunks_within zero n xs = []
chunks_within (suc fuel) n [] = []
chunks_within (suc fuel) n (x ∷ xs) = take n (x ∷ xs) ∷ chunks_within fuel n (drop n (x ∷ xs))

unfoldable pub chunks : {A : Type 0} → ℕ → List A → List (List A)
chunks n xs = chunks_within (length xs) n xs

-- `collect` into a `Result`.
unfoldable pub collect : {E A : Type 0} → List (Result E A) → Result E (List A)
collect [] = ok []
collect (r ∷ rs) = do a ← r; rest ← collect rs; ok (a ∷ rest)

module _ {D E : Type 0} where
  unfoldable pub parse_id : ℕ → Record → Result (PipelineIoError D E) ℕ
  parse_id row record_fields =
      match_option (parse_i64 (field_or_empty record_fields 0))
        (err (invalid_id row (field_or_empty record_fields 0))) ok

  unfoldable pub parse_row : ℕ → Record → Result (PipelineIoError D E) Row
  parse_row row record_fields = do
    id ← parse_id row record_fields
    ok (record {
      id = id;
      name = field_or_empty record_fields 1;
      note = note_of (field_or_empty record_fields 2);
    })

  -- One line of the reader, as a row.
  unfoldable pub read_row :
      {T : Type 0}
      → (ℕ → Record → Result (PipelineIoError D E) T)
      → ℕ
      → Result E Record
      → Result (PipelineIoError D E) T
  read_row parse row line = map_err read_record line >>= parse row

  -- The loop of `read_csv_rows`.
  unfoldable pub rows_from :
      {T : Type 0}
      → (ℕ → Record → Result (PipelineIoError D E) T)
      → ℕ
      → List (Result E Record)
      → Result (PipelineIoError D E) (List T)
  rows_from parse row [] = ok []
  rows_from parse row (line ∷ lines) = do
    r ← read_row parse row line
    rest ← rows_from parse (suc row) lines
    ok (r ∷ rest)

  -- `file` is what `File::open` gave, read as CSV.
  unfoldable pub read_csv_rows :
      {T : Type 0}
      → Text
      → Result E (List (Result E Record))
      → (ℕ → Record → Result (PipelineIoError D E) T)
      → Result (PipelineIoError D E) (List T)
  read_csv_rows path file parse = map_err (open_input path) file >>= rows_from parse 0

  unfoldable pub parse_rows :
      Text → Result E (List (Result E Record)) → Result (PipelineIoError D E) (List Row)
  parse_rows path file = read_csv_rows path file parse_row

  module _ {Batch : Type 0}
      (try_new : List ℕ → List Text → List (Option Text) → Result E Batch) where
    unfoldable pub batch_from_rows : List Row → Result (PipelineIoError D E) Batch
    batch_from_rows rows =
        map_err build_batch
          (try_new (map (λ r. r.id) rows) (map (λ r. r.name) rows) (map (λ r. r.note) rows))

    unfoldable pub fixture_to_record_batch :
        Text → Result E (List (Result E Record)) → Result (PipelineIoError D E) Batch
    fixture_to_record_batch path file = parse_rows path file >>= batch_from_rows

    -- `fixture_to_record_batches`, for a positive batch size.
    unfoldable pub fixture_to_record_batches :
        Text → Result E (List (Result E Record)) → ℕ → Result (PipelineIoError D E) (List Batch)
    fixture_to_record_batches path file batch_size = do
      rows ← parse_rows path file
      collect (map batch_from_rows (chunks batch_size rows))
