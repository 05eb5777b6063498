-- ===== src/Pipeline/RemoteRun/Remote.antt =====
-- What crates/pipeline/src/bounded.rs `run_bounded_pipeline_s3` has done to the store when it returns.
use datacrate.Common.{
  ◌≡◌, inl, inr, sym, ap, ◌∙◌, subst, Option, some, Result, ok, err, Text, text, ◌++◌, return, lift,
  and_then, and_then_lem, step_lem, Bool-cases, Option-cases,
}
use datacrate.Pipeline.Error.{PipelineError}
use datacrate.Pipeline.IoError.{PipelineIoError}
use datacrate.Pipeline.Manifest.{ObjectMeta}
use datacrate.Pipeline.Download.{download_to_temp}
use datacrate.Pipeline.Publication.{publish}
use datacrate.Pipeline.Publication.Outcome.{Truthful}
use datacrate.Pipeline.Publication.Truth.{publish-Truthful}
use datacrate.Pipeline.Bounded.{ArrowWriter, PipelineReport, if_cancelled}
use datacrate.Pipeline.Bounded.Run.{RunLaws, Safe, run-Safe}
use datacrate.Pipeline.RemoteRun.{Machine, run_local, run_bounded_pipeline_s3}
use datacrate.Pipeline.RemoteRun.Promises.{
  RemoteLaws, staging_key, Ran, Remote, Truthful-start, Ended, download-Ended,
}
use datacrate.Pipeline.RemoteRun.Quiet.{download-Keeps, run_local-Keeps}

module _ {S F D E Batch : Type 0} (machine : Machine S F D E Batch) (view : S → Text → Option Text)
    (local : Text → S → Option Text) (held : F → S → Text)
    (written : ArrowWriter S E Batch → S → Text) (got : S → Text)
    (laws : RemoteLaws machine view local held written got) (input_key output_key run_id : Text)
    (manifest_path : machine.env.path_from (output_key ++ text ".manifest.json")
      ≡ output_key ++ text ".manifest.json")
    (staging_path : machine.env.path_from (output_key ++ (text ".staging/" ++ run_id))
      ≡ output_key ++ (text ".staging/" ++ run_id)) where
  abbrev staged : Text
  staged = staging_key machine view local held written got laws input_key output_key run_id

  abbrev Ends :
      S → Result (PipelineError (PipelineIoError D E)) (Option PipelineReport) × S → Type 0
  Ends s = Remote machine view local held written got laws input_key output_key run_id s

  -- From the last check of the flag on.
  publication :
      (namespace_path path : Text) (input_meta : ObjectMeta) (report : PipelineReport)
      (contents : Text) (s u : S)
      → view u ≡ view s
      → local path u ≡ some contents
      → Ran machine view local held written got laws input_key output_key run_id s report contents
      → Ends s (
          and_then
            (publish machine.env machine.store
              (machine.upload_from_temp path)
              (ok (namespace_path, some run_id))
              output_key
              input_key
              input_meta
              report.rows_written
              report.content_digest)
            (λ _. return (some report))
            u)
  publication namespace_path path input_meta report contents s u quiet stands ran =
      let truth =
        publish-Truthful machine.env machine.store view laws.store contents
          (machine.upload_from_temp path) namespace_path run_id output_key input_key input_meta
          report.rows_written report.content_digest u (laws.uploads path contents u stands)
          manifest_path staging_path in
      let from_start : Truthful machine.env view contents output_key report.rows_written run_id
          staged s
          (publish machine.env machine.store (machine.upload_from_temp path)
            (ok (namespace_path, some run_id)) output_key input_key input_meta report.rows_written
            report.content_digest u) =
        Truthful-start machine view local held written got laws input_key output_key run_id contents
          report.rows_written s u _ quiet truth in
      and_then_lem (Ends s) _ _ u
        (λ a t e. (
          contents,
          ran,
          subst (Truthful machine.env view contents output_key report.rows_written run_id staged s)
              e from_start,
        ))
        (λ x t e. inr (
          report,
          (
            contents,
            ran,
            subst
                (Truthful machine.env view contents output_key report.rows_written run_id staged s)
                e from_start,
          ),
        ))

  -- From the local run on.
  after_download :
      (namespace_path dir : Text) (input_meta : ObjectMeta) (s t0 t : S)
      → machine.tempdir (machine.channel.is_cancelled s).1 ≡ (ok dir, t0)
      → download_to_temp {D = D} machine.source input_key (dir ++ text "/input.csv") t0
        ≡ (ok (some input_meta), t)
      → view t ≡ view s
      → Ends s (
          and_then
            (run_local machine (dir ++ text "/input.csv") (dir ++ text "/output.parquet"))
            (λ report. if_cancelled machine.channel (lift (err PipelineError.cancelled)) (
              and_then
                (publish machine.env machine.store
                  (machine.upload_from_temp (dir ++ text "/output.parquet"))
                  (ok (namespace_path, some run_id))
                  output_key
                  input_key
                  input_meta
                  report.rows_written
                  report.content_digest)
                λ _. return (some report)))
            t)
  after_download namespace_path dir input_meta s t0 t made loaded quiet =
      let input = dir ++ text "/input.csv" in
      let output = dir ++ text "/output.parquet" in
      and_then_lem (Ends s) _ _ t
        (λ report t1 e1.
          let ran : view t1 ≡ view s =
            ap (λ p. view p.1) (sym e1)
            ∙ run_local-Keeps machine view laws.apart input output t
            ∙ quiet in
          elim (Bool-cases (machine.channel.is_cancelled t1).0) [
            | inl c ↦ rw (c) (inl (laws.apart.flag t1 ∙ ran))
            | inr c ↦
                let (contents, wrote, stands) =
                  subst
                    (Safe machine.channel machine.files machine.path_parent machine.parquet_writer
                      output (local output) held written (laws.runs output) machine.metrics
                      (machine.threads input) t)
                    e1
                    (run-Safe machine.channel machine.files machine.path_parent
                      machine.parquet_writer output (local output) held written (laws.runs output)
                      machine.metrics (machine.threads input) t (laws.threads input output)) in
                rw (c) (
                  publication namespace_path output input_meta report contents s
                    (machine.channel.is_cancelled t1).1 (laws.apart.flag t1 ∙ ran)
                    (RunLaws.flag (laws.runs output) t1 ∙ stands)
                    (dir, t0, t, input_meta, made, loaded, wrote))
          ])
        (λ x t1 e1. inl (
          ap (λ p. view p.1) (sym e1)
          ∙ run_local-Keeps machine view laws.apart input output t
          ∙ quiet))

  -- Where the calls keep what is documented and the two derived paths stay as they are: the remote run
  -- returns a report only after the local run on the downloaded input ended with that report, and then
  -- the output holds what that run's threads wrote to its Parquet file, the completion record names
  -- this run, the output and the report's rows, and the staging key is gone. An error leaves every
  -- object as it was, or is an outcome of publishing those contents and true of the store. The
  -- download always ends.
  pub run_s3-Remote :
      (namespace_path : Text) (s : S)
      → Remote machine view local held written got laws input_key output_key run_id s (
          run_bounded_pipeline_s3 machine (ok (namespace_path, some run_id)) input_key output_key s)
  unfolding run_bounded_pipeline_s3
  run_s3-Remote namespace_path s = elim (Bool-cases (machine.channel.is_cancelled s).0) [
    | inl c ↦ rw (c) (inl (laws.apart.flag s))
    | inr c ↦ rw (c) (
        step_lem (Ends s) _ machine.tempdir _ (machine.channel.is_cancelled s).1
          (λ dir t1 e1.
            let made : view t1 ≡ view s =
              ap (λ p. view p.1) (sym e1)
              ∙ laws.apart.tempdir (machine.channel.is_cancelled s).1
              ∙ laws.apart.flag s in
            step_lem (Ends s) _
              (download_to_temp machine.source input_key (dir ++ text "/input.csv")) _ t1
              (λ captured t2 e2.
                let loaded : view t2 ≡ view s =
                  ap (λ p. view p.1) (sym e2)
                  ∙ download-Keeps machine view laws.apart input_key (dir ++ text "/input.csv") t1
                  ∙ made in
                elim (Option-cases captured) [
                  | inl n ↦ absurd (
                      subst
                        (Ended machine view local held written got laws input_key output_key run_id)
                        (e2 ∙ ap (λ c. (ok c, t2)) n)
                        (download-Ended machine view local held written got laws input_key
                          output_key run_id input_key (dir ++ text "/input.csv") t1))
                  | inr (input_meta, n) ↦ rw (n) (
                      after_download namespace_path dir input_meta s t1 t2 e1
                        (e2 ∙ ap (λ c. (ok c, t2)) n) loaded)
                ])
              (λ x t2 e2. inl (
                ap (λ p. view p.1) (sym e2)
                ∙ download-Keeps machine view laws.apart input_key (dir ++ text "/input.csv") t1
                ∙ made)))
          (λ x t1 e1. inl (
            ap (λ p. view p.1) (sym e1)
            ∙ laws.apart.tempdir (machine.channel.is_cancelled s).1
            ∙ laws.apart.flag s)))
  ]
