-- ===== src/Pipeline/RemoteRun/Quiet.antt =====
-- What crates/pipeline/src/bounded.rs `run_bounded_pipeline_s3` does before the publication leaves a part of
-- the state alone, such as the objects of the store, if the calls it makes do.
use datacrate.Common.{
  ℕ, zero, suc, ◌-◌, ◌≡◌, refl, ◌∙◌, ◌&&◌, List, [], ◌∷◌, Option, Result, ok, err, Text, Action,
  fail_with, Keeps, and_then-Keeps, fail_with-Keeps, Bool-cases, inl, inr, ltb, length,
}
use datacrate.Contracts.Names.{str_eq}
use datacrate.Pipeline.Error.{PipelineError}
use datacrate.Pipeline.IoError.{PipelineIoError, open_output}
use datacrate.Pipeline.Manifest.{ObjectMeta, is_none}
use datacrate.Pipeline.Staging.{LocalStagedOutput, new, file, publish_with}
use datacrate.Pipeline.Download.{
  GetOptions, receive, download_range, download_ranges, download_captured, download_to_temp,
  saturating_add, range_end, not_empty,
}
use datacrate.Pipeline.Bounded.{
  PipelineReport, ArrowWriter, if_cancelled, finish, run_bounded_pipeline,
}
use datacrate.Pipeline.RemoteRun.{Machine, run_local}

pub record Apart {S F D E Batch V : Type 0} (machine : Machine S F D E Batch) (view : S → V)
    : Type 0 where
  pub flag : (s : S) → view (machine.channel.is_cancelled s).1 ≡ view s
  pub tempdir : Keeps view machine.tempdir
  pub head : (key : Text) → Keeps view (machine.source.head key)
  pub get_opts :
      (key : Text) (options : GetOptions) → Keeps view (machine.source.get_opts key options)
  pub create : (path : Text) → Keeps view (machine.source.create path)
  pub write_all : (chunk : Text) → Keeps view (machine.source.write_all chunk)
  pub tempfile_in : (dir : Text) → Keeps view (machine.files.tempfile_in dir)
  pub reopen : (f : F) → Keeps view (machine.files.reopen f)
  pub sync_file : (f : F) → Keeps view (machine.files.sync_file f)
  pub persist : (f : F) (output : Text) → Keeps view (machine.files.persist f output)
  pub sync_parent : (dir : Text) → Keeps view (machine.files.sync_parent dir)
  pub writer : (f : F) → Keeps view (machine.parquet_writer f)
  pub threads :
      (input : Text) (w : ArrowWriter S E Batch) (s : S)
      → view (machine.threads input w s).2 ≡ view s

module _ {S F D E Batch V : Type 0} (machine : Machine S F D E Batch) (view : S → V)
    (apart : Apart machine view) where
  if_cancelled-Keeps :
      {A : Type 0} (a b : Action S (PipelineError (PipelineIoError D E)) A)
      → Keeps view a
      → Keeps view b
      → Keeps view (if_cancelled machine.channel a b)
  if_cancelled-Keeps a b h k s = elim (Bool-cases (machine.channel.is_cancelled s).0) [
    | inl e ↦ rw (e) (h (machine.channel.is_cancelled s).1 ∙ apart.flag s)
    | inr e ↦ rw (e) (k (machine.channel.is_cancelled s).1 ∙ apart.flag s)
  ]

  receive-Keeps :
      (key dest : Text) (expected : ℕ) (stream : List (Result E Text)) (received : ℕ)
      → Keeps view (receive {D = D} machine.source key dest expected stream received)
  unfolding receive
  receive-Keeps key dest expected [] received s = refl
  receive-Keeps key dest expected (err e ∷ chunks) received s = refl
  receive-Keeps key dest expected (ok chunk ∷ chunks) received s =
      elim (Bool-cases (ltb expected (saturating_add received (length chunk)))) [
        | inl e ↦ rw (e) refl
        | inr e ↦ rw (e) (
            and_then-Keeps view (fail_with (open_output dest) (machine.source.write_all chunk)) _
              (fail_with-Keeps view (open_output dest) (machine.source.write_all chunk)
                (apart.write_all chunk))
              (λ _. receive-Keeps key dest expected chunks (saturating_add received (length chunk)))
              s)
      ]

  range-Keeps :
      (key dest : Text) (captured : ObjectMeta) (version etag : Option Text) (offset end : ℕ)
      → Keeps view (download_range {D = D} machine.source key dest captured version etag offset end)
  unfolding download_range
  range-Keeps key dest captured version etag offset end =
      and_then-Keeps view _ _ (fail_with-Keeps view _ _ (apart.get_opts key _)) λ response.
        and_then-Keeps view _ _ (λ s. refl)
          λ _.
            and_then-Keeps view _ _ (receive-Keeps key dest (end - offset) response.stream 0)
              (λ received s. refl)

  ranges-Keeps :
      (key dest : Text) (fuel : ℕ) (captured : ObjectMeta) (version etag : Option Text) (offset : ℕ)
      → Keeps view
          (download_ranges {D = D} machine.source key dest fuel captured version etag offset)
  unfolding download_ranges
  ranges-Keeps key dest zero captured version etag offset s = refl
  ranges-Keeps key dest (suc fuel) captured version etag offset s =
      elim (Bool-cases (ltb offset captured.size)) [
        | inl e ↦ rw (e) (
            and_then-Keeps view _ _
              (range-Keeps key dest captured version etag offset (range_end captured offset))
              (λ _. ranges-Keeps key dest fuel captured version etag (range_end captured offset)) s)
        | inr e ↦ rw (e) refl
      ]

  captured-Keeps :
      (key dest : Text) (captured : ObjectMeta)
      → Keeps view (download_captured {D = D} machine.source key dest captured)
  unfolding download_captured
  captured-Keeps key dest captured s = elim (Bool-cases (str_eq captured.location key)) [
    | inr e ↦ rw (e) refl
    | inl e ↦
        elim (Bool-cases
          (is_none (not_empty captured.version) && is_none (not_empty captured.e_tag))) [
            | inl f ↦ rw (e, f) refl
            | inr f ↦
                rw (e, f)
                  (and_then-Keeps view _ _
                    (ranges-Keeps key dest (suc captured.size) captured (not_empty captured.version)
                      (not_empty captured.e_tag) 0)
                    (λ done s. refl) s)
          ]
  ]

  pub download-Keeps :
      (key dest : Text) → Keeps view (download_to_temp {D = D} machine.source key dest)
  unfolding download_to_temp
  download-Keeps key dest =
      and_then-Keeps view _ _ (fail_with-Keeps view _ _ (apart.create dest)) λ _.
        and_then-Keeps view _ _ (fail_with-Keeps view _ _ (apart.head key))
          (captured-Keeps key dest)

  finish-Keeps :
      (staged : LocalStagedOutput F)
      (production : Result (PipelineError (PipelineIoError D E)) (Unit {0}))
      (result : Result (PipelineError (PipelineIoError D E)) PipelineReport) (s : S)
      → view
          (finish machine.channel machine.files machine.path_parent machine.parquet_writer staged
            machine.metrics
            (production, result, s)).1
        ≡ view s
  unfolding finish publish_with
  finish-Keeps staged production result s =
      and_then-Keeps view _ _ (λ s. refl)
        (λ report.
          and_then-Keeps view _ _ (λ s. refl)
            λ _.
              if_cancelled-Keeps _ _ (λ s. refl)
                (and_then-Keeps view _ _
                  (and_then-Keeps view _ _ (fail_with-Keeps view _ _ (apart.sync_file staged.file))
                    λ _.
                      and_then-Keeps view _ _
                        (fail_with-Keeps view _ _ (apart.persist staged.file staged.output))
                        λ _. fail_with-Keeps view _ _ (apart.sync_parent _))
                  (λ _ s. refl)))
        s

  pub run_local-Keeps : (input output : Text) → Keeps view (run_local machine input output)
  unfolding run_bounded_pipeline new file
  run_local-Keeps input output =
      if_cancelled-Keeps _ _ (λ s. refl)
        (and_then-Keeps view _ _
          (and_then-Keeps view _ _ (fail_with-Keeps view _ _ (apart.tempfile_in _)) (λ f s. refl))
          λ staged.
            and_then-Keeps view _ _ (fail_with-Keeps view _ _ (apart.reopen staged.file)) λ handle.
              and_then-Keeps view _ _ (fail_with-Keeps view _ _ (apart.writer handle)) λ writer s.
                finish-Keeps staged (machine.threads input writer s).0
                  (machine.threads input writer s).1 (machine.threads input writer s).2
                ∙ apart.threads input writer s)
