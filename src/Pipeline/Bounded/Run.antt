-- ===== src/Pipeline/Bounded/Run.antt =====
-- crates/pipeline/src/bounded.rs `run_bounded_pipeline`: when the destination changes.
use datacrate.Common.{
  ℕ, ◌≡◌, ◌⊎◌, inl, inr, refl, sym, subst, ap, ◌∙◌, Option, some, Result, ok, err, Text, Action,
  return, and_then, fail_with, and_then_lem, step_lem, Bool-cases,
}
use datacrate.Pipeline.Error.{
  PipelineError, local_publication, LocalPublicationOutcome, published_durability_uncertain, write,
}
use datacrate.Pipeline.IoError.{PipelineIoError, open_output}
use datacrate.Pipeline.Staging.{
  PublicationIo, LocalStagedOutput, failure, new, file, publish_with, parent,
}
use datacrate.Pipeline.Staging.Truth.{IoLaws, publish_with-Truthful}
use datacrate.Pipeline.Staging.Truth as Staging
use datacrate.Pipeline.Bounded.{
  Channel, PipelineReport, ArrowWriter, finish, with_metrics, run_bounded_pipeline,
}

-- What a run relies on: before the publication nothing touches the destination, and the publication
-- keeps the promises of `IoLaws`. `held f s` is what the file `f` holds, and `written w s` what the file
-- that the Parquet writer `w` writes to does: a reopened file is the same file, and the writer that is
-- made on a handle writes to its file.
pub record RunLaws {S F D E Batch : Type 0} (channel : Channel S D E Batch)
    (files : PublicationIo S F E)
    (parquet_writer : F → Action S (PipelineIoError D E) (ArrowWriter S E Batch)) (output : Text)
    (view : S → Option Text) (held : F → S → Text) (written : ArrowWriter S E Batch → S → Text)
    : Type 0 where
  pub flag : (s : S) → view (channel.is_cancelled s).1 ≡ view s
  pub flag_held : (f : F) (s : S) → held f (channel.is_cancelled s).1 ≡ held f s
  pub tempfile_in : (dir : Text) (s : S) → view (files.tempfile_in dir s).1 ≡ view s
  pub reopen : (f : F) (s : S) → view (files.reopen f s).1 ≡ view s
  pub same_file : (f h : F) (s t u : S) → files.reopen f s ≡ (ok h, t) → held h u ≡ held f u
  pub writer : (f : F) (s : S) → view (parquet_writer f s).1 ≡ view s
  pub writes_to :
      (h : F) (w : ArrowWriter S E Batch) (s t u : S)
      → parquet_writer h s ≡ (ok w, t)
      → written w u ≡ held h u
  pub publication : (f : F) → IoLaws files f output view (held f)

-- The two threads of a run, on a writer.
abbrev pub Threads : Type 0 → Type 0 → Type 0 → Type 0 → Type 0
Threads S D E Batch =
    ArrowWriter S E Batch
    → S
    → Result (PipelineError (PipelineIoError D E)) (Unit {0})
      × Result (PipelineError (PipelineIoError D E)) PipelineReport
      × S

module _ {S F D E Batch : Type 0} (channel : Channel S D E Batch) (files : PublicationIo S F E)
    (path_parent : Text → Option Text)
    (parquet_writer : F → Action S (PipelineIoError D E) (ArrowWriter S E Batch)) (output : Text)
    (written : ArrowWriter S E Batch → S → Text) (metrics : S → Option (ℕ × ℕ))
    (threads : Threads S D E Batch) where
  -- From `s`, the run makes the file `f` and opens the writer `w` on it, which leads to `v`.
  abbrev pub Opened : S → F → ArrowWriter S E Batch → S → Type 0
  Opened s f w v =
      (s1 : S) × (s2 : S) × (handle : F) × (files.tempfile_in (parent path_parent output)
          (channel.is_cancelled s).1
        ≡ (ok f, s1))
      × (files.reopen f s1 ≡ (ok handle, s2))
      × (parquet_writer handle s2 ≡ (ok w, v))

  -- From `s`, both threads end well on that writer, with this report, and `contents` is what they have
  -- written by then.
  abbrev pub Written : S → PipelineReport → Text → Type 0
  Written s report contents =
      (f : F) × (w : ArrowWriter S E Batch) × (v : S) × (counted : PipelineReport) × Opened s f w v
      × ((threads w v).0 ≡ ok tt)
      × ((threads w v).1 ≡ ok counted)
      × (report
          ≡ with_metrics channel files path_parent parquet_writer (metrics (threads w v).2) counted)
      × (contents ≡ written w (threads w v).2)

module _ {S F D E Batch : Type 0} (channel : Channel S D E Batch) (files : PublicationIo S F E)
    (path_parent : Text → Option Text)
    (parquet_writer : F → Action S (PipelineIoError D E) (ArrowWriter S E Batch)) (output : Text)
    (view : S → Option Text) (held : F → S → Text) (written : ArrowWriter S E Batch → S → Text)
    (laws : RunLaws channel files parquet_writer output view held written)
    (metrics : S → Option (ℕ × ℕ)) (threads : Threads S D E Batch) where
  -- What the threads wrote, with this report, stands at the destination in `t`.
  abbrev pub Replaced : S → PipelineReport → S → Type 0
  Replaced s report t =
      (contents : Text) × Written channel files path_parent parquet_writer output written metrics
        threads s report contents
      × (view t ≡ some contents)

  -- An error that says so.
  abbrev pub Uncertain : PipelineError (PipelineIoError D E) → Type 0
  Uncertain (local_publication _ published_durability_uncertain _ _) = Unit {0}
  Uncertain _ = ⊥

  abbrev pub Safe : S → Result (PipelineError (PipelineIoError D E)) PipelineReport × S → Type 0
  Safe s (ok report, t) = Replaced s report t
  Safe s (err e, t) =
      (view t ≡ view s) ⊎ (Uncertain e × ((report : PipelineReport) × Replaced s report t))

  -- The publication of a file that holds what the threads wrote.
  publish_error :
      (f : F) (s u t : S) (q : PipelineReport) (e : PipelineError (PipelineIoError D E))
      → ((v : S) → view v ≡ some (held f u) → Replaced s q v)
      → view u ≡ view s
      → Staging.Truthful files path_parent open_output
          (record { file = f; output = output })
          view
          (held f)
          (laws.publication f)
          u
          (err e, t)
      → Safe s (err e, t)
  publish_error f s u t q (local_publication phase LocalPublicationOutcome.not_published o x) put
        quiet h =
      inl (h.0 ∙ quiet)
  publish_error f s u t q (local_publication phase published_durability_uncertain o x) put quiet h =
      inr (tt, (q, put t h.0))
  publish_error f s u t q _ put quiet h = absurd h

  published :
      (f : F) (s u : S) (q : PipelineReport)
      → view u ≡ view s
      → ((v : S) → view v ≡ some (held f u) → Replaced s q v)
      → Safe s (
          and_then
            (publish_with files path_parent open_output (record { file = f; output = output }))
            (λ _. return q)
            u)
  published f s u q quiet put =
      let truth =
        publish_with-Truthful files path_parent open_output (record { file = f; output = output })
          view (held f) (laws.publication f) u in
      and_then_lem (Safe s)
        (publish_with files path_parent open_output (record { file = f; output = output })) _ u
        (λ _ v e. put v (
          subst
            (Staging.Truthful files path_parent open_output (record { file = f; output = output })
              view (held f) (laws.publication f) u)
            e truth))
        (λ x v e. publish_error f s u v q x put quiet (
          subst
            (Staging.Truthful files path_parent open_output (record { file = f; output = output })
              view (held f) (laws.publication f) u)
            e truth))

  finish-Safe :
      (f : F) (s t : S) (production : Result (PipelineError (PipelineIoError D E)) (Unit {0}))
      (result : Result (PipelineError (PipelineIoError D E)) PipelineReport)
      → view t ≡ view s
      → ((q : PipelineReport) (v : S)
          → production ≡ ok tt
          → result ≡ ok q
          → view v ≡ some (held f t)
          → Replaced s (with_metrics channel files path_parent parquet_writer (metrics t) q) v)
      → Safe s (
          finish channel files path_parent parquet_writer
            (record { file = f; output = output })
            metrics
            (production, result, t))
  unfolding finish and_then
  finish-Safe f s t production (err e) quiet put = inl quiet
  finish-Safe f s t (err e) (ok q) quiet put = inl quiet
  finish-Safe f s t (ok _) (ok q) quiet put = elim (Bool-cases (channel.is_cancelled t).0) [
    | inl c ↦ rw c (inl (laws.flag t ∙ quiet))
    | inr c ↦ rw c (
        published f s (channel.is_cancelled t).1 _ (laws.flag t ∙ quiet)
          (λ v e. put q v refl refl (e ∙ ap some (laws.flag_held f t))))
  ]

  -- A staged file was made for this output, or not; the destination is as it was.
  abbrev Made : S → Result (PipelineError (PipelineIoError D E)) (LocalStagedOutput F) × S → Type 0
  Made s (ok staged, t) =
      ((f : F) × (record { file = f; output = output } ≡ staged)
        × (files.tempfile_in (parent path_parent output) s ≡ (ok f, t)))
      × (view t ≡ view s)
  Made s (err _, t) = view t ≡ view s

  new-Made : (s : S) → Made s (new files path_parent open_output output s)
  unfolding new
  new-Made s =
      step_lem (Made s) _ (files.tempfile_in (parent path_parent output)) _ s
        (λ f t e. ((f, refl, e), ap (λ p. view p.1) (sym e) ∙ laws.tempfile_in _ s))
        (λ x t e. ap (λ p. view p.1) (sym e) ∙ laws.tempfile_in _ s)

  -- From the staged file to the publication.
  staged-Safe :
      (apart : (w : ArrowWriter S E Batch) (t : S) → view (threads w t).2 ≡ view t) (f : F)
      (s t : S)
      → files.tempfile_in (parent path_parent output) (channel.is_cancelled s).1 ≡ (ok f, t)
      → view t ≡ view s
      → Safe s (
          and_then
            (file files path_parent open_output (record { file = f; output = output }))
            (λ handle. and_then (fail_with (failure output write) (parquet_writer handle)) (λ w u.
              finish channel files path_parent parquet_writer
                (record { file = f; output = output })
                metrics
                (threads w u)))
            t)
  unfolding file
  staged-Safe apart f s t e0 quiet =
      step_lem (Safe s) _ (files.reopen f) _ t
        (λ handle t1 e1.
          let reopened : view t1 ≡ view s = ap (λ p. view p.1) (sym e1) ∙ laws.reopen f t ∙ quiet in
          step_lem (Safe s) _ (parquet_writer handle) _ t1
            (λ w t2 e2.
              let opened : view t2 ≡ view s =
                ap (λ p. view p.1) (sym e2) ∙ laws.writer handle t1 ∙ reopened in
              let u = (threads w t2).2 in
              let its_own : held f u ≡ written w u =
                sym (laws.writes_to handle w t1 t2 u e2 ∙ laws.same_file f handle t t1 u e1) in
              finish-Safe f s u (threads w t2).0 (threads w t2).1 (apart w t2 ∙ opened)
                (λ q v production result stands. (
                  written w u,
                  (f, w, t2, q, (t, t1, handle, e0, e1, e2), production, result, refl, refl),
                  stands ∙ ap some its_own,
                )))
            (λ x t2 e2. inl (ap (λ p. view p.1) (sym e2) ∙ laws.writer handle t1 ∙ reopened)))
        (λ x t1 e1. inl (ap (λ p. view p.1) (sym e1) ∙ laws.reopen f t ∙ quiet))

  -- Whichever step failed, `run_bounded_pipeline` returns a report only where both threads ended well
  -- with it on the writer that the run opened, and then what they had written to that writer's file
  -- stands at the destination. An error leaves the destination as it was, unless it is the one that
  -- reports a published output of uncertain durability, after which it is replaced in the same way.
  pub run-Safe :
      (s : S) (apart : (w : ArrowWriter S E Batch) (t : S) → view (threads w t).2 ≡ view t)
      → Safe s
          (run_bounded_pipeline channel files path_parent parquet_writer output metrics threads s)
  unfolding run_bounded_pipeline
  run-Safe s apart =
      let s0 = (channel.is_cancelled s).1 in
      elim (Bool-cases (channel.is_cancelled s).0) [
        | inl c ↦ rw c (inl (laws.flag s))
        | inr c ↦ rw c (
            and_then_lem (Safe s) (new files path_parent open_output output) _ s0
              (λ staged t1 e1.
                let ((f, same, e0), quiet) = subst (Made s0) e1 (new-Made s0) in
                subst
                  (λ x. Safe s (
                    and_then (file files path_parent open_output x)
                      (λ handle.
                        and_then (fail_with (failure output write) (parquet_writer handle)) (λ w u.
                          finish channel files path_parent parquet_writer x metrics (threads w u)))
                      t1))
                  same (staged-Safe apart f s t1 e0 (quiet ∙ laws.flag s)))
              (λ x t1 e1. inl (subst (Made s0) e1 (new-Made s0) ∙ laws.flag s)))
      ]
