-- ===== src/Csv/Select.antt =====
-- crates/csv-cli/src/bin/csv-select.rs: the selection of one column, record by record. The reader and the
-- writer are `csv`'s: a record or an error for each line, and calls on the output `S`.
pub mod Output
use datacrate.Common.{
  ℕ, Bool, true, false, not, List, [], ◌∷◌, Option, none, some, Result, ok, err, Text, Action,
  return, lift, and_then, fail_with, get_elem?, length, match_option, if◌then◌else◌,
}

pub data CliError (E : Type 0) : Type 0 where
  open_input : Text → E → CliError E
  column_out_of_range : ℕ → ℕ → CliError E
  read_record : E → CliError E
  write_output : E → CliError E

pub record Args : Type 0 where
  pub input : Text
  pub column : ℕ
  pub no_headers : Bool

pub record Writer (S E : Type 0) : Type 0 where
  pub write_record : List Text → Action S E (Unit {0})
  pub flush : Action S E (Unit {0})

-- A reader with its header row, which it reads when it is asked for or before the records.
pub record Reader (E : Type 0) : Type 0 where
  pub headers : Result E (List Text)
  pub records : List (Result E (List Text))

unfoldable pub select_field : {E : Type 0} → List Text → ℕ → Result (CliError E) Text
select_field record_fields column =
    match_option (get_elem? record_fields column)
      (err (column_out_of_range column (length record_fields))) ok

module _ {S E : Type 0} (writer : Writer S E) where
  unfoldable pub select_and_write : List Text → ℕ → Action S (CliError E) (Unit {0})
  unfolding select_field
  select_and_write record_fields column =
      and_then (lift (select_field record_fields column))
        λ value. fail_with write_output (writer.write_record (value ∷ []))

  -- The loop over the records.
  unfoldable pub write_records : List (Result E (List Text)) → ℕ → Action S (CliError E) (Unit {0})
  unfolding select_and_write
  write_records [] column = return tt
  write_records (received ∷ rest) column =
      and_then (fail_with read_record (lift received)) λ record_fields.
        and_then (select_and_write record_fields column) λ _. write_records rest column

  unfoldable pub write_selected_column : Reader E → ℕ → Bool → Action S (CliError E) (Unit {0})
  unfolding select_and_write write_records
  write_selected_column reader column has_headers =
      and_then
        (if has_headers
          then (and_then (fail_with read_record (lift reader.headers))
              λ headers. select_and_write headers column)
          else return tt)
        λ _. write_records reader.records column

  -- `run`; `from_path` opens the file with or without a header row.
  unfoldable pub run : (Bool → Text → Result E (Reader E)) → Args → Action S (CliError E) (Unit {0})
  unfolding write_selected_column
  run from_path args =
      and_then
        (fail_with (open_input args.input) (lift (from_path (not args.no_headers) args.input)))
        λ reader.
          and_then (write_selected_column reader args.column (not args.no_headers))
            λ _. fail_with write_output writer.flush
