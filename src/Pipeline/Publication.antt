-- ===== src/Pipeline/Publication.antt =====
-- crates/pipeline/src/publication.rs: `publish` of one run's output, over any object store.
pub mod Outcome
pub mod Closure
pub mod Truth
pub mod Examples
use datacrate.Common.{
  ℕ, Bool, true, false, Option, none, some, ◌++◌, Result, ok, err, map_err, Text, text, Action,
  return, lift, and_then, fail_with, match_option,
}
use datacrate.Pipeline.Error.{
  RemotePublicationPhase, upload, invalidate_completion, publish_output, capture_output_identity,
  write_completion, cleanup_staging, RemotePublicationOutcome, not_published, publication_unknown,
  published_without_completion, completion_unknown, completed_cleanup_unknown,
  RemotePublicationError, PipelineError, remote_publication, io,
}
use datacrate.Pipeline.Error
use datacrate.Pipeline.IoError.{PipelineIoError, open_output, upload_object}
use datacrate.Pipeline.Manifest.{ObjectMeta, CompletionManifest, new_identity, new_v2, key_for}
use datacrate.Pipeline.Store.{ObjectStore, head, put_manifest, delete, copy_staged_object}

-- `RemoteStagedOutput`; the temporary directory that only reserves the name is not kept.
pub record RemoteStagedOutput : Type 0 where
  pub run_id : Text
  pub key : Text

-- What the run takes from other crates and from the file system: `ObjectPath::from`, serde's writer,
-- the errors of an unusable namespace, and the paths these errors name.
pub record Env (S D E : Type 0) : Type 0 where
  pub path_from : Text → Text
  pub to_vec : CompletionManifest → Result E Text
  pub temp_dir : Text
  pub no_name : E

-- The failing step with what is known of the output.
abbrev pub Failure : Type 0 → Type 0 → Type 0
Failure D E = RemotePublicationPhase × RemotePublicationOutcome × PipelineIoError D E

module _ {S D E : Type 0} (env : Env S D E) (store : ObjectStore S E) where
  -- `RemoteStagedOutput::new`: the directory that `tempfile` made, its path and, where that is
  -- UTF-8, its name.
  unfoldable pub new :
      Result E (Text × Option Text) → Text → Result (PipelineIoError D E) RemoteStagedOutput
  new (err source) output = err (open_output env.temp_dir source)
  new (ok (path, none)) output = err (open_output path env.no_name)
  new (ok (path, some run_id)) output =
      ok (record { run_id = run_id; key = env.path_from (output ++ (text ".staging/" ++ run_id)) })

  -- The outcome of a failed completion write: unknown once the upload itself was tried.
  unfoldable pub completion_outcome : PipelineIoError D E → RemotePublicationOutcome
  completion_outcome (upload_object _ _) = completion_unknown
  completion_outcome _ = published_without_completion

  abbrev fail_at :
      {A : Type 0}
      → RemotePublicationPhase
      → RemotePublicationOutcome
      → Action S (PipelineIoError D E) A
      → Action S (Failure D E) A
  fail_at phase outcome = fail_with (λ source. (phase, outcome, source))

  -- The rest of the closure, once the output is copied: the output's identity, and the record of it.
  unfoldable pub complete :
      RemoteStagedOutput → Text → Text → ObjectMeta → ℕ → ℕ → Action S (Failure D E) (Unit {0})
  complete staged output_key input_key input_meta rows digest =
      and_then
        (fail_at capture_output_identity published_without_completion (head store output_key))
        λ meta.
          and_then
            (fail_at capture_output_identity published_without_completion
              (lift (new_identity staged.run_id output_key meta)))
            λ identity.
              and_then
                (fail_at capture_output_identity published_without_completion
                  (lift (new_v2 input_key input_meta rows digest identity)))
                λ manifest.
                  fail_with (λ source. (write_completion, completion_outcome source, source))
                    (put_manifest store env.to_vec manifest (key_for env.path_from output_key))

  -- The closure of `publish`, whose first error stops it. `upload_staged` is `upload_from_temp` of
  -- the local output.
  unfoldable pub attempt :
      (Text → Action S (PipelineIoError D E) (Unit {0}))
      → RemoteStagedOutput
      → Text
      → Text
      → ObjectMeta
      → ℕ
      → ℕ
      → Action S (Failure D E) (Unit {0})
  attempt upload_staged staged output_key input_key input_meta rows digest =
      let manifest_key = key_for env.path_from output_key in
      and_then (fail_at upload not_published (upload_staged staged.key)) λ _.
        and_then (fail_at invalidate_completion not_published (delete store manifest_key)) λ _.
          and_then
            (fail_at publish_output publication_unknown
              (copy_staged_object store staged.key output_key))
            λ _. complete staged output_key input_key input_meta rows digest

  unfoldable pub failure :
      RemoteStagedOutput
      → Text
      → RemotePublicationPhase
      → RemotePublicationOutcome
      → PipelineIoError D E
      → Option (PipelineIoError D E)
      → PipelineError (PipelineIoError D E)
  failure staged output_key phase outcome source cleanup_error = remote_publication (record {
    phase = phase;
    outcome = outcome;
    output_key = output_key;
    manifest_key = key_for env.path_from output_key;
    staging_key = staged.key;
    source = source;
    cleanup_error = cleanup_error;
  })

  -- `Result::err`
  abbrev error_of : {A F : Type 0} → Result F A → Option F
  error_of (ok _) = none
  error_of (err e) = some e

  -- After the closure: one attempt to delete this run's staging key, whatever happened.
  unfoldable pub clean_up :
      RemoteStagedOutput
      → Text
      → Result (Failure D E) (Unit {0}) × S
      → Result (PipelineError (PipelineIoError D E)) (Unit {0}) × S
  clean_up staged output_key (err (phase, outcome, source), s) =
      let (r, t) = delete store staged.key s in
      (err (failure staged output_key phase outcome source (error_of r)), t)
  clean_up staged output_key (ok _, s) =
      let (r, t) = delete store staged.key s in
      (
        map_err
            (λ source.
              failure staged output_key cleanup_staging completed_cleanup_unknown source none)
            r,
        t,
      )

  unfoldable pub publish :
      (Text → Action S (PipelineIoError D E) (Unit {0}))
      → Result E (Text × Option Text)
      → Text
      → Text
      → ObjectMeta
      → ℕ
      → ℕ
      → Action S (PipelineError (PipelineIoError D E)) (Unit {0})
  publish upload_staged namespace output_key input_key input_meta rows digest =
      and_then (fail_with io (lift (new namespace output_key))) λ staged. λ s.
        clean_up staged output_key
          (attempt upload_staged staged output_key input_key input_meta rows digest s)
