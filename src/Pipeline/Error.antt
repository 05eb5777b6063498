-- ===== src/Pipeline/Error.antt =====
-- crates/pipeline/src/bounded.rs `PipelineError`, with the publication phases and outcomes of
-- publication.rs and staging.rs. `Io` stands for `PipelineIoError`.
use datacrate.Common.{ℕ, Option, Text}

pub data RemotePublicationPhase : Type 0 where
  upload invalidate_completion publish_output capture_output_identity : RemotePublicationPhase
  write_completion cleanup_staging : RemotePublicationPhase

pub data RemotePublicationOutcome : Type 0 where
  not_published publication_unknown published_without_completion : RemotePublicationOutcome
  completion_unknown completed_cleanup_unknown : RemotePublicationOutcome

-- Object paths are texts.
pub record RemotePublicationError (Io : Type 0) : Type 0 where
  pub phase : RemotePublicationPhase
  pub outcome : RemotePublicationOutcome
  pub output_key : Text
  pub manifest_key : Text
  pub staging_key : Text
  pub source : Io
  pub cleanup_error : Option Io

pub data LocalPublicationPhase : Type 0 where
  create write close file_sync rename parent_sync : LocalPublicationPhase

pub data LocalPublicationOutcome : Type 0 where
  not_published published_durability_uncertain : LocalPublicationOutcome

pub data PipelineError (Io : Type 0) : Type 0 where
  remote_publication : RemotePublicationError Io → PipelineError Io
  local_publication : LocalPublicationPhase → LocalPublicationOutcome → Text → Io → PipelineError Io
  batch_too_large : ℕ → ℕ → PipelineError Io
  batch_growth_exceeds_budget : ℕ → ℕ → PipelineError Io
  byte_charge_overflow : PipelineError Io
  io : Io → PipelineError Io
  cancelled : PipelineError Io
