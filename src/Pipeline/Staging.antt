-- ===== src/Pipeline/Staging.antt =====
-- crates/pipeline/src/staging.rs: the owned local file and its publication, over the calls on the file
-- system. `Io` stands for `PipelineIoError`, `F` for the handle of the temporary file.
pub mod Truth
mod Examples
use datacrate.Common.{
  ℕ, Bool, true, false, Option, none, some, [], ◌∷◌, Result, Text, text, Action, return, and_then,
  fail_with, if◌then◌else◌, match_option,
}
use datacrate.Pipeline.Error.{
  LocalPublicationPhase, create, file_sync, rename, parent_sync, LocalPublicationOutcome,
  not_published, published_durability_uncertain, PipelineError, local_publication,
}
use datacrate.Pipeline.Error

-- `PublicationIo`, and the calls of `tempfile` that make and reopen the staged file.
pub record PublicationIo (S F E : Type 0) : Type 0 where
  pub tempfile_in : Text → Action S E F
  pub reopen : F → Action S E F
  pub sync_file : F → Action S E (Unit {0})
  pub persist : F → Text → Action S E (Unit {0})
  pub sync_parent : Text → Action S E (Unit {0})

pub record LocalStagedOutput (F : Type 0) : Type 0 where
  pub file : F
  pub output : Text

-- `phase == LocalPublicationPhase::ParentSync`
unfoldable pub is_parent_sync : LocalPublicationPhase → Bool
is_parent_sync parent_sync = true
is_parent_sync _ = false

module _ {Io : Type 0} where
  unfoldable pub failure : Text → LocalPublicationPhase → Io → PipelineError Io
  failure output phase source =
      local_publication phase
        (if is_parent_sync phase
          then published_durability_uncertain
          else LocalPublicationOutcome.not_published)
        output source

-- `parent`; `path_parent` is `Path::parent`.
unfoldable pub parent : (Text → Option Text) → Text → Text
parent path_parent output =
    match_option (path_parent output) (text ".") λ path. if is_empty path then text "." else path
  where
    is_empty : Text → Bool
    is_empty [] = true
    is_empty (_ ∷ _) = false

module _ {S F E Io : Type 0} (io : PublicationIo S F E) (path_parent : Text → Option Text)
    (open_output : Text → E → Io) where
  -- `io_failure`
  abbrev pub io_failure : Text → LocalPublicationPhase → E → PipelineError Io
  io_failure output phase source = failure output phase (open_output output source)

  -- `LocalStagedOutput::new`
  unfoldable pub new : Text → Action S (PipelineError Io) (LocalStagedOutput F)
  new output =
      and_then (fail_with (io_failure output create) (io.tempfile_in (parent path_parent output)))
        λ file. return (record { file = file; output = output })

  -- `LocalStagedOutput::file`
  unfoldable pub file : LocalStagedOutput F → Action S (PipelineError Io) F
  file staged = fail_with (io_failure staged.output create) (io.reopen staged.file)

  -- `publish_with`
  unfoldable pub publish_with : LocalStagedOutput F → Action S (PipelineError Io) (Unit {0})
  publish_with staged =
      and_then (fail_with (io_failure staged.output file_sync) (io.sync_file staged.file)) λ _.
        and_then
          (fail_with (io_failure staged.output rename) (io.persist staged.file staged.output))
          λ _.
            fail_with (io_failure staged.output parent_sync)
              (io.sync_parent (parent path_parent staged.output))
