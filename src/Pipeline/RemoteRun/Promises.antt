-- ===== src/Pipeline/RemoteRun/Promises.antt =====
-- What crates/pipeline/src/bounded.rs `run_bounded_pipeline_s3` relies on, and what it says of the
-- store when it returns.
use datacrate.Common.{
  ℕ, ◌<◌, ◌^◌, ◌≡◌, ◌⊎◌, ap, ◌∙◌, Option, none, some, Result, ok, err, Text, text, ◌++◌, step_lem,
}
use datacrate.Pipeline.Error.{
  PipelineError, remote_publication, RemotePublicationOutcome, not_published, publication_unknown,
  published_without_completion, completion_unknown, completed_cleanup_unknown,
}
use datacrate.Pipeline.IoError.{PipelineIoError}
use datacrate.Pipeline.Manifest.{ObjectMeta}
use datacrate.Pipeline.Store.Laws.{StoreLaws}
use datacrate.Pipeline.Download.{download_to_temp}
use datacrate.Pipeline.Download.Complete.{FileLaws, Downloaded, download-Downloaded}
use datacrate.Pipeline.Publication.Outcome.{UploadLaws, Known, Truthful}
use datacrate.Pipeline.Bounded.{ArrowWriter, PipelineReport}
use datacrate.Pipeline.Bounded.Run.{RunLaws, Written}
use datacrate.Pipeline.RemoteRun.{Machine}
use datacrate.Pipeline.RemoteRun.Quiet.{Apart}

-- The store's promises, those of the local run and the upload's, and that all else leaves the objects
-- alone. `local path s` is the local file under a path, `held f s` what an open file holds, `written w s`
-- what the file of a Parquet writer does, and `got s` the file of the download. An upload stores the
-- local file that it reads.
pub record RemoteLaws {S F D E Batch : Type 0} (machine : Machine S F D E Batch)
    (view : S → Text → Option Text) (local : Text → S → Option Text) (held : F → S → Text)
    (written : ArrowWriter S E Batch → S → Text) (got : S → Text) : Type 0 where
  pub apart : Apart machine view
  pub store : StoreLaws machine.store view
  pub file : FileLaws machine.source got
  pub sizes :
      (key : Text) (s t : S) (meta : ObjectMeta)
      → machine.source.head key s ≡ (ok meta, t)
      → meta.size < 2 ^ 64
  pub runs :
      (output : Text)
      → RunLaws machine.channel machine.files machine.parquet_writer output
          (local output)
          held
          written
  pub threads :
      (input output : Text) (w : ArrowWriter S E Batch) (s : S)
      → local output (machine.threads input w s).2 ≡ local output s
  pub uploads :
      (path contents : Text) (s : S)
      → local path s ≡ some contents
      → UploadLaws view contents (machine.upload_from_temp path) s

module _ {S F D E Batch : Type 0} (machine : Machine S F D E Batch) (view : S → Text → Option Text)
    (local : Text → S → Option Text) (held : F → S → Text)
    (written : ArrowWriter S E Batch → S → Text) (got : S → Text)
    (laws : RemoteLaws machine view local held written got)
    (input_key output_key run_id : Text) where
  abbrev pub staging_key : Text
  staging_key = machine.env.path_from (output_key ++ (text ".staging/" ++ run_id))

  -- From `s`, the input was downloaded, and the local run on it ended with this report and wrote
  -- `contents` to its Parquet file.
  abbrev pub Ran : S → PipelineReport → Text → Type 0
  Ran s report contents =
      (dir : Text) × (s1 : S) × (s2 : S) × (input_meta : ObjectMeta) × (machine.tempdir
          (machine.channel.is_cancelled s).1
        ≡ (ok dir, s1))
      × (download_to_temp {D = D} machine.source input_key (dir ++ text "/input.csv") s1
          ≡ (ok (some input_meta), s2))
      × Written machine.channel machine.files machine.path_parent machine.parquet_writer
          (dir ++ text "/output.parquet") written machine.metrics
          (machine.threads (dir ++ text "/input.csv")) s2 report contents

  -- What publishing the contents of that run says of the store.
  abbrev pub Published :
      S → PipelineReport → Result (PipelineError (PipelineIoError D E)) (Unit {0}) × S → Type 0
  Published s report r =
      (contents : Text) × Ran s report contents
      × Truthful machine.env view contents output_key report.rows_written run_id staging_key s r

  abbrev pub Remote :
      S → Result (PipelineError (PipelineIoError D E)) (Option PipelineReport) × S → Type 0
  Remote s (ok none, t) = ⊥
  Remote s (ok (some report), t) = Published s report (ok tt, t)
  Remote s (err e, t) =
      (view t ≡ view s) ⊎ ((report : PipelineReport) × Published s report (err e, t))

  -- What an outcome says depends on the objects at the start only.
  Known-start :
      (outcome : RemotePublicationOutcome) (contents : Text) (rows : ℕ) (s u t : S)
      → view u ≡ view s
      → Known machine.env view contents output_key rows run_id outcome u t
      → Known machine.env view contents output_key rows run_id outcome s t
  Known-start not_published contents rows s u t quiet h = h ∙ ap (λ v. v output_key) quiet
  Known-start publication_unknown contents rows s u t quiet h = h
  Known-start published_without_completion contents rows s u t quiet h = h
  Known-start completion_unknown contents rows s u t quiet h = h
  Known-start completed_cleanup_unknown contents rows s u t quiet h = h

  pub Truthful-start :
      (contents : Text) (rows : ℕ) (s u : S)
      (r : Result (PipelineError (PipelineIoError D E)) (Unit {0}) × S)
      → view u ≡ view s
      → Truthful machine.env view contents output_key rows run_id staging_key u r
      → Truthful machine.env view contents output_key rows run_id staging_key s r
  Truthful-start contents rows s u (ok _, t) quiet h = h
  Truthful-start contents rows s u (err (remote_publication e), t) quiet h =
      Known-start e.outcome contents rows s u t quiet h
  Truthful-start contents rows s u (err _, t) quiet h = absurd h

  -- The download does not run out of fuel.
  abbrev pub Ended : Result (PipelineIoError D E) (Option ObjectMeta) × S → Type 0
  Ended (ok none, t) = ⊥
  Ended (ok (some _), t) = Unit {0}
  Ended (err _, t) = Unit {0}

  Downloaded-Ended :
      (key path : Text) (meta : ObjectMeta) (s : S)
      (r : Result (PipelineIoError D E) (Option ObjectMeta) × S)
      → Downloaded D machine.source key path got laws.file meta s r
      → Ended r
  Downloaded-Ended key path meta s (ok none, t) h = h
  Downloaded-Ended key path meta s (ok (some _), t) h = tt
  Downloaded-Ended key path meta s (err _, t) h = tt

  pub download-Ended :
      (key path : Text) (s : S) → Ended (download_to_temp machine.source key path s)
  unfolding download_to_temp
  download-Ended key path s =
      step_lem Ended _ (machine.source.create path) _ s
        (λ _ t1 e1.
          step_lem Ended _ (machine.source.head key) _ t1
            (λ meta t2 e2. Downloaded-Ended key path meta t2 _ (
              download-Downloaded D machine.source key path got laws.file meta t2
                (laws.sizes key t1 t2 meta e2)))
            (λ x t2 e2. tt))
        (λ x t1 e1. tt)
