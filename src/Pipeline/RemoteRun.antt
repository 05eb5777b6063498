-- ===== src/Pipeline/RemoteRun.antt =====
-- crates/pipeline/src/bounded.rs `run_bounded_pipeline_s3`: a download, the run on local files, and the
-- publication of what it wrote. Local files, the store and the flag are all parts of the state `S`.
pub mod Quiet
pub mod Promises
pub mod Remote
mod Examples
use datacrate.Common.{
  ℕ, Option, none, some, Result, ok, err, Text, text, ◌++◌, Action, return, lift, and_then,
  fail_with, match_option,
}
use datacrate.Pipeline.Error.{PipelineError, cancelled, io}
use datacrate.Pipeline.IoError.{PipelineIoError, open_output}
use datacrate.Pipeline.Staging.{PublicationIo}
use datacrate.Pipeline.Store.{ObjectStore}
use datacrate.Pipeline.Download.{Source, download_to_temp}
use datacrate.Pipeline.Publication.{Env, publish}
use datacrate.Pipeline.Bounded.{
  Channel, PipelineReport, ArrowWriter, if_cancelled, run_bounded_pipeline,
}

-- What a run uses: the flag and the transport, the local files, the Parquet writer, the two threads on an
-- input file, the metrics, the store as it is read and written, and the upload of a local file.
pub record Machine (S F D E Batch : Type 0) : Type 0 where
  pub channel : Channel S D E Batch
  pub files : PublicationIo S F E
  pub path_parent : Text → Option Text
  pub parquet_writer : F → Action S (PipelineIoError D E) (ArrowWriter S E Batch)
  pub metrics : S → Option (ℕ × ℕ)
  pub threads :
      Text
      → ArrowWriter S E Batch
      → S
      → Result (PipelineError (PipelineIoError D E)) (Unit {0})
        × Result (PipelineError (PipelineIoError D E)) PipelineReport
        × S
  pub tempdir : Action S E Text
  pub source : Source S E
  pub store : ObjectStore S E
  pub env : Env S D E
  pub upload_from_temp : Text → Text → Action S (PipelineIoError D E) (Unit {0})

module _ {S F D E Batch : Type 0} (machine : Machine S F D E Batch) where
  abbrev RunError : Type 0
  RunError = PipelineError (PipelineIoError D E)

  -- The run on local files.
  abbrev pub run_local : Text → Text → Action S RunError PipelineReport
  run_local local_input local_output =
      run_bounded_pipeline machine.channel machine.files machine.path_parent machine.parquet_writer
        local_output machine.metrics (machine.threads local_input)

  -- A result `none` is a download that ran out of fuel; `namespace` is the run's directory and its name.
  unfoldable pub run_bounded_pipeline_s3 :
      Result E (Text × Option Text) → Text → Text → Action S RunError (Option PipelineReport)
  run_bounded_pipeline_s3 namespace input_key output_key =
      if_cancelled machine.channel (lift (err cancelled)) (
        and_then (fail_with (λ e. io (open_output machine.env.temp_dir e)) machine.tempdir)
          λ staging_dir.
            and_then
              (fail_with io
                (download_to_temp machine.source input_key (staging_dir ++ text "/input.csv")))
              λ captured. match_option captured (return none) λ input_meta.
                and_then
                  (run_local (staging_dir ++ text "/input.csv")
                    (staging_dir ++ text "/output.parquet"))
                  λ report. if_cancelled machine.channel (lift (err cancelled)) (
                    and_then
                      (publish machine.env machine.store
                        (machine.upload_from_temp (staging_dir ++ text "/output.parquet")) namespace
                        output_key input_key input_meta report.rows_written report.content_digest)
                      λ _. return (some report)))
