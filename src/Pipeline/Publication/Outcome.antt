-- ===== src/Pipeline/Publication/Outcome.antt =====
-- What the outcomes of crates/pipeline/src/publication.rs claim of the store, as predicates.
use datacrate.Common.{ℕ, ◌≡◌, ◌≢◌, Option, none, some, Result, ok, err, Text, Action}
use datacrate.Pipeline.Error.{
  RemotePublicationOutcome, not_published, publication_unknown, published_without_completion,
  completion_unknown, completed_cleanup_unknown, PipelineError, remote_publication,
}
use datacrate.Pipeline.IoError.{PipelineIoError}
use datacrate.Pipeline.Manifest.{CompletionManifest, key_for}
use datacrate.Pipeline.Publication.{Env, Failure}

-- In the state `s`, an upload touches only its key, and leaves `contents` there when it succeeds.
pub record UploadLaws {S D E : Type 0} (view : S → Text → Option Text) (contents : Text)
    (upload_staged : Text → Action S (PipelineIoError D E) (Unit {0})) (s : S) : Type 0 where
  pub frame : (key j : Text) → j ≢ key → view (upload_staged key s).1 j ≡ view s j
  pub stored :
      (key : Text)
      → (upload_staged key s).0 ≡ ok tt
      → view (upload_staged key s).1 key ≡ some contents

module _ {S D E : Type 0} (env : Env S D E) (view : S → Text → Option Text) (contents : Text)
    (output_key : Text) (rows : ℕ) (run_id : Text) where
  -- The completion record under the manifest's key names this run, the output and its row count.
  abbrev pub Completed : S → Type 0
  Completed t =
      (m : CompletionManifest) × (body : Text) × (m.run_id ≡ some run_id)
      × (m.output_key ≡ some output_key)
      × (m.row_count ≡ rows)
      × (env.to_vec m ≡ ok body)
      × (view t (key_for env.path_from output_key) ≡ some body)

  -- What each outcome says of the store `t` after a run that began at `s`.
  abbrev pub Known : RemotePublicationOutcome → S → S → Type 0
  Known not_published s t = view t output_key ≡ view s output_key
  Known publication_unknown s t = view t (key_for env.path_from output_key) ≡ none
  Known published_without_completion s t =
      (view t output_key ≡ some contents) × (view t (key_for env.path_from output_key) ≡ none)
  Known completion_unknown s t = view t output_key ≡ some contents
  Known completed_cleanup_unknown s t = (view t output_key ≡ some contents) × Completed t

  -- The same of the closure, before the staging key is deleted.
  abbrev pub Reached : S → Result (Failure D E) (Unit {0}) × S → Type 0
  Reached s (ok _, t) = (view t output_key ≡ some contents) × Completed t
  Reached s (err (phase, outcome, source), t) = Known outcome s t

  -- What `publish` says of the store, by its result.
  abbrev pub Truthful :
      Text → S → Result (PipelineError (PipelineIoError D E)) (Unit {0}) × S → Type 0
  Truthful staging_key s (ok _, t) =
      (view t output_key ≡ some contents) × Completed t × (view t staging_key ≡ none)
  Truthful staging_key s (err (remote_publication e), t) = Known e.outcome s t
  Truthful staging_key s (err _, t) = ⊥
