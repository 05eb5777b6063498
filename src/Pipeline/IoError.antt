-- ===== src/Pipeline/IoError.antt =====
-- crates/pipeline/src/lib.rs `CallbackStage` and `PipelineIoError`, with the violations they carry
-- from manifest.rs, object_store_io.rs and batch_contract.rs. `E` stands for the errors of other
-- crates (object_store, std::io, csv, arrow, parquet, serde_json) and `DataType` for Arrow's.
use datacrate.Common.{ℕ, Bool, Text}

pub data CallbackStage : Type 0 where
  transform sink : CallbackStage

pub data ManifestViolation : Type 0 where
  output_key_mismatch missing_run_id missing_output_key : ManifestViolation
  missing_output_identity empty_output_identity missing_digest_scheme : ManifestViolation

pub data SnapshotViolation : Type 0 where
  missing_identity location identity : SnapshotViolation
  size : ℕ → ℕ → SnapshotViolation
  range : ℕ × ℕ → ℕ × ℕ → SnapshotViolation
  length : ℕ → ℕ → SnapshotViolation

pub data BatchViolation (DataType : Type 0) : Type 0 where
  column_count : ℕ → ℕ → BatchViolation DataType
  field_name : ℕ → Text → Text → BatchViolation DataType
  data_type : ℕ → DataType → DataType → BatchViolation DataType
  nullability : ℕ → Bool → Bool → BatchViolation DataType
  null_values : ℕ → ℕ → BatchViolation DataType
  array_representation : ℕ → BatchViolation DataType

pub data PipelineIoError (DataType E : Type 0) : Type 0 where
  delete_object : Text → E → PipelineIoError DataType E
  completion_identity_required : ℕ → PipelineIoError DataType E
  callback : CallbackStage → ℕ → PipelineIoError DataType E → PipelineIoError DataType E
  invalid_batch : BatchViolation DataType → PipelineIoError DataType E
  open_input : Text → E → PipelineIoError DataType E
  read_record : E → PipelineIoError DataType E
  invalid_id : ℕ → Text → PipelineIoError DataType E
  invalid_amount : ℕ → Text → PipelineIoError DataType E
  invalid_timestamp : ℕ → Text → PipelineIoError DataType E
  build_batch : E → PipelineIoError DataType E
  open_output : Text → E → PipelineIoError DataType E
  write_parquet : E → PipelineIoError DataType E
  read_parquet : E → PipelineIoError DataType E
  download_object : Text → E → PipelineIoError DataType E
  invalid_snapshot : Text → SnapshotViolation → PipelineIoError DataType E
  snapshot_precondition : Text → E → PipelineIoError DataType E
  upload_object : Text → E → PipelineIoError DataType E
  multipart_abort : PipelineIoError DataType E → E → PipelineIoError DataType E
  head_object : Text → E → PipelineIoError DataType E
  read_manifest : E → PipelineIoError DataType E
  unsupported_manifest_version : ℕ → PipelineIoError DataType E
  invalid_manifest : ManifestViolation → PipelineIoError DataType E
  unsupported_digest_scheme : Text → PipelineIoError DataType E
  write_manifest : E → PipelineIoError DataType E
