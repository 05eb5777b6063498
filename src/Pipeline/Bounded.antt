-- ===== src/Pipeline/Bounded.antt =====
-- crates/pipeline/src/bounded.rs: the producer and the consumer of a bounded run. The channel between
-- them and the cancellation flag are operations on a shared state `S`; `Io` is `PipelineIoError`.
pub mod Production
pub mod Audit
pub mod Report
pub mod Ends
pub mod Run
mod Examples
use datacrate.Common.{
  ℕ, zero, suc, ◌+◌, Bool, true, false, not, ◌&&◌, List, [], ◌∷◌, ◌++◌, Option, none, some, Result,
  ok, err, ◌>>=◌, map_err, Text, Action, return, lift, and_then, fail_with, ◌==◌, if◌then◌else◌,
  match_option, length,
}
use datacrate.Pipeline.Error.{PipelineError, io, cancelled, write, close}
use datacrate.Pipeline.IoError.{
  PipelineIoError, CallbackStage, callback, open_input, open_output, write_parquet,
}
use datacrate.Pipeline.IoError
use datacrate.Pipeline.Manifest.{Row, Hasher, accumulate_batch_digest}
use datacrate.Pipeline.Rows.{Record, parse_row, read_row, batch_from_rows}
use datacrate.Pipeline.Transport.{BatchLease}
use datacrate.Pipeline.Staging.{PublicationIo, LocalStagedOutput, failure, new, file, publish_with}

pub record PipelineReport : Type 0 where
  pub batches_written : ℕ
  pub rows_written : ℕ
  pub content_digest : ℕ
  pub admitted_bytes : Option ℕ
  pub peak_admitted_bytes : Option ℕ

-- `PipelineReport::default`
abbrev pub default : PipelineReport
default = record {
  batches_written = 0;
  rows_written = 0;
  content_digest = 0;
  admitted_bytes = none;
  peak_admitted_bytes = none;
}

-- `accumulate_batch_stats`, on the rows of the checked batch.
unfoldable pub accumulate_batch_stats :
    {H : Type 0} → Hasher H → PipelineReport → List Row → PipelineReport
accumulate_batch_stats h report rows = record report {
  batches_written = report.batches_written + 1;
  rows_written = report.rows_written + length rows;
  content_digest = accumulate_batch_digest h report.content_digest rows;
}

-- `BatchSender`, `BatchReceiver` and `CancellationToken`, as the two loops call them.
pub record Channel (S D E Batch : Type 0) : Type 0 where
  pub is_cancelled : S → Bool × S
  pub send :
      Result (PipelineIoError D E) Batch → Action S (PipelineError (PipelineIoError D E)) (Unit {0})
  pub recv : Action S (PipelineError (PipelineIoError D E)) (Option (BatchLease Batch))
  pub transform :
      (Batch → Result (PipelineIoError D E) Batch)
      → BatchLease Batch
      → Action S (PipelineError (PipelineIoError D E)) (BatchLease Batch)

module _ {S D E Batch : Type 0} (channel : Channel S D E Batch) where
  -- Runs `a` if the flag is set and `b` if not.
  abbrev pub if_cancelled :
      {A : Type 0}
      → Action S (PipelineError (PipelineIoError D E)) A
      → Action S (PipelineError (PipelineIoError D E)) A
      → Action S (PipelineError (PipelineIoError D E)) A
  if_cancelled a b s = let (c, t) = channel.is_cancelled s in (if c then a else b) t

module _ {S D E Batch : Type 0} (channel : Channel S D E Batch)
    (try_new : List ℕ → List Text → List (Option Text) → Result E Batch) where
  -- The rows left over when the file ends.
  unfoldable pub send_rest : List Row → Action S (PipelineError (PipelineIoError D E)) (Unit {0})
  send_rest [] = return tt
  send_rest (row ∷ rows) =
      if_cancelled channel (return tt) (channel.send (batch_from_rows try_new (row ∷ rows)))

  -- The loop of `produce_batches`, from a row index, with the rows of the current chunk.
  unfoldable pub produce_from :
      ℕ
      → List (Result E Record)
      → List Row
      → ℕ
      → Action S (PipelineError (PipelineIoError D E)) (Unit {0})
  produce_from batch_size [] chunk index = send_rest chunk
  produce_from batch_size (line ∷ lines) chunk index =
      if_cancelled channel (return tt) (elim (read_row parse_row index line) [
        | err e ↦ channel.send (err e)
        | ok row ↦
            if length (chunk ++ row ∷ []) == batch_size
            then and_then (channel.send (batch_from_rows try_new (chunk ++ row ∷ [])))
                (λ _. produce_from batch_size lines [] (suc index))
            else produce_from batch_size lines (chunk ++ row ∷ []) (suc index)
      ])

  -- `produce_batches`; `file` is what `File::open` gave, read as CSV.
  unfoldable pub produce_batches :
      Text
      → Result E (List (Result E Record))
      → ℕ
      → Action S (PipelineError (PipelineIoError D E)) (Unit {0})
  produce_batches path (err source) batch_size = channel.send (err (open_input path source))
  produce_batches path (ok lines) batch_size = produce_from batch_size lines [] 0

-- A batch that `CheckedIngestBatch::try_new` accepted, with its rows.
pub record CheckedIngestBatch (Batch : Type 0) : Type 0 where
  pub batch : Batch
  pub rows : List Row

-- `ArrowWriter`, as the consumer calls it.
pub record ArrowWriter (S E Batch : Type 0) : Type 0 where
  pub write : Batch → Action S E (Unit {0})
  pub into_inner : Action S E (Unit {0})

module _ {S D E Batch H : Type 0} (channel : Channel S D E Batch) (writer : ArrowWriter S E Batch)
    (hasher : Hasher H)
    (try_checked : Batch → Result (PipelineIoError D E) (CheckedIngestBatch Batch)) (output : Text)
    (transform : Option (Batch → Result (PipelineIoError D E) Batch)) where
  abbrev Io : Type 0
  Io = PipelineIoError D E

  -- A callback's error with its stage and the index of the batch.
  unfoldable pub at_batch : ℕ → (Batch → Result Io Batch) → Batch → Result Io Batch
  at_batch index f batch = map_err (callback CallbackStage.transform index) (f batch)

  unfoldable pub transformed :
      PipelineReport → BatchLease Batch → Action S (PipelineError Io) (BatchLease Batch)
  transformed report lease =
      match_option transform (return lease)
        λ f. channel.transform (at_batch report.batches_written f) lease

  -- One turn of the loop of `consume_batches`, on a lease.
  unfoldable pub consume_one :
      PipelineReport → BatchLease Batch → Action S (PipelineError Io) PipelineReport
  consume_one report lease = if_cancelled channel (lift (err cancelled)) (
      and_then (transformed report lease) λ after.
        and_then (fail_with io (lift (try_checked after.batch))) λ checked.
          and_then
            (fail_with (λ source. failure output write (write_parquet source))
              (writer.write checked.batch))
            λ _. return (accumulate_batch_stats hasher report checked.rows))

  -- The loop, on fuel.
  unfoldable pub consume_loop :
      ℕ → PipelineReport → Action S (PipelineError Io) (Option PipelineReport)
  consume_loop zero report = return none
  consume_loop (suc fuel) report = and_then channel.recv λ message.
      match_option message (return (some report))
        λ lease. and_then (consume_one report lease) (consume_loop fuel)

  -- `consume_batches`; a result `none` is a loop that ran out of fuel.
  unfoldable pub consume_batches : ℕ → Action S (PipelineError Io) (Option PipelineReport)
  consume_batches fuel = if_cancelled channel (lift (err cancelled)) (
      and_then (consume_loop fuel default) λ done. match_option done (return none) λ report.
        if_cancelled channel (lift (err cancelled)) (
          and_then
            (fail_with (λ source. failure output close (write_parquet source)) writer.into_inner)
            λ _. return (some report)))

-- `PipelineConfig`; the compression is Parquet's and only passed on.
pub record PipelineConfig : Type 0 where
  pub batch_size : ℕ
  pub channel_capacity : ℕ
  pub max_admitted_bytes : Option ℕ

module _ {S F D E Batch : Type 0} (channel : Channel S D E Batch) (files : PublicationIo S F E)
    (path_parent : Text → Option Text)
    (parquet_writer : F → Action S (PipelineIoError D E) (ArrowWriter S E Batch)) where
  abbrev RunError : Type 0
  RunError = PipelineError (PipelineIoError D E)

  -- The report with the transport's metrics, where there is a budget.
  unfoldable pub with_metrics : Option (ℕ × ℕ) → PipelineReport → PipelineReport
  with_metrics none report = report
  with_metrics (some (current, peak)) report = record report {
    admitted_bytes = some current;
    peak_admitted_bytes = some peak;
  }

  -- After both threads have ended: their errors, the metrics, the last check of the flag, and the
  -- publication.
  unfoldable pub finish :
      LocalStagedOutput F
      → (S → Option (ℕ × ℕ))
      → Result RunError (Unit {0}) × Result RunError PipelineReport × S
      → Result RunError PipelineReport × S
  finish staged metrics (production, result, s) =
      and_then (lift result)
        (λ report. and_then (lift production) λ _. if_cancelled channel (lift (err cancelled)) (
          and_then (publish_with files path_parent open_output staged)
            λ _. return (with_metrics (metrics s) report)))
        s

  -- `run_bounded_pipeline`. `threads` is the scope in which the producer runs beside the consumer
  -- on the writer, until both have ended.
  unfoldable pub run_bounded_pipeline :
      Text
      → (S → Option (ℕ × ℕ))
      → (ArrowWriter S E Batch
          → S
          → Result RunError (Unit {0}) × Result RunError PipelineReport × S)
      → Action S RunError PipelineReport
  run_bounded_pipeline output metrics threads = if_cancelled channel (lift (err cancelled)) (
      and_then (new files path_parent open_output output) λ staged.
        and_then (file files path_parent open_output staged) λ handle.
          and_then (fail_with (failure output write) (parquet_writer handle))
            λ writer. λ s. finish staged metrics (threads writer s))
