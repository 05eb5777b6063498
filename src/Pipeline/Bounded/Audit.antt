-- ===== src/Pipeline/Bounded/Audit.antt =====
-- The report of crates/pipeline/src/bounded.rs `consume_batches` against what reached the writer.
use datacrate.Common.{
  ℕ, ◌+◌, ◌≡◌, refl, sym, ap, ◌∙◌, List, [], ◌∷◌, ◌++◌, map, Option, none, some, Result, ok, err,
  Text, lift, and_then_lem, step_lem, match_option, arith, length, Bool-cases, Option-cases, inl,
  inr,
}
use datacrate.Pipeline.Error.{PipelineError}
use datacrate.Pipeline.IoError.{PipelineIoError}
use datacrate.Pipeline.Manifest.{Row, Hasher, accumulate_batch_digest}
use datacrate.Pipeline.Manifest.Digest.{run_digest}
use datacrate.Pipeline.Transport.{BatchLease}
use datacrate.Pipeline.Bounded.{
  Channel, PipelineReport, accumulate_batch_stats, CheckedIngestBatch, ArrowWriter, transformed,
  consume_one, at_batch,
}

-- The rows of all batches.
abbrev pub row_total : List (List Row) → ℕ
row_total [] = 0
row_total (rows ∷ rest) = length rows + row_total rest

-- What the consumer relies on: the channel and the flag do not write, a write that succeeds appends
-- its batch, closing adds none, and a batch is checked as it stands.
pub record Writes {S D E Batch : Type 0} (channel : Channel S D E Batch)
    (writer : ArrowWriter S E Batch)
    (try_checked : Batch → Result (PipelineIoError D E) (CheckedIngestBatch Batch))
    (written : S → List Batch) (rows_of : Batch → List Row) : Type 0 where
  pub flag : (s : S) → written (channel.is_cancelled s).1 ≡ written s
  pub recv : (s : S) → written (channel.recv s).1 ≡ written s
  pub transform :
      (f : Batch → Result (PipelineIoError D E) Batch) (lease : BatchLease Batch) (s : S)
      → written (channel.transform f lease s).1 ≡ written s
  pub write :
      (b : Batch) (s : S)
      → (writer.write b s).0 ≡ ok tt
      → written (writer.write b s).1 ≡ written s ++ b ∷ []
  pub into_inner : (s : S) → written (writer.into_inner s).1 ≡ written s
  pub checked :
      (b : Batch) (c : CheckedIngestBatch Batch)
      → try_checked b ≡ ok c
      → (c.batch ≡ b) × (c.rows ≡ rows_of b)

module _ {S Batch H : Type 0} (hasher : Hasher H) (written : S → List Batch)
    (rows_of : Batch → List Row) where
  -- The report grew from `r` to `q` by exactly the batches that were written between `s` and `t`.
  abbrev pub Audited : PipelineReport → S → PipelineReport → S → Type 0
  Audited r s q t =
      (batches : List Batch) × (written t ≡ written s ++ batches)
      × (q.batches_written ≡ r.batches_written + length batches)
      × (q.rows_written ≡ r.rows_written + row_total (map rows_of batches))
      × (q.content_digest ≡ run_digest hasher r.content_digest (map rows_of batches))

  abbrev pub One :
      {Io : Type 0} → PipelineReport → S → Result (PipelineError Io) PipelineReport × S → Type 0
  One r s (ok q, t) = Audited r s q t
  One r s (err _, t) = Unit {0}

  -- The same of a result that may be none.
  abbrev pub Outcome :
      {Io : Type 0}
      → PipelineReport
      → S
      → Result (PipelineError Io) (Option PipelineReport) × S
      → Type 0
  Outcome r s (ok (some q), t) = Audited r s q t
  Outcome r s (ok none, t) = Unit {0}
  Outcome r s (err _, t) = Unit {0}

module _ {S D E Batch H : Type 0} (channel : Channel S D E Batch) (writer : ArrowWriter S E Batch)
    (hasher : Hasher H)
    (try_checked : Batch → Result (PipelineIoError D E) (CheckedIngestBatch Batch)) (output : Text)
    (transform : Option (Batch → Result (PipelineIoError D E) Batch)) (written : S → List Batch)
    (rows_of : Batch → List Row) (writes : Writes channel writer try_checked written rows_of) where
  transformed_quiet :
      (r : PipelineReport) (lease : BatchLease Batch) (s : S)
      → written (transformed channel writer hasher try_checked output transform r lease s).1
        ≡ written s
  unfolding transformed at_batch
  transformed_quiet r lease s = elim (Option-cases transform) [
    | inl e ↦ rw (e, match_option) refl
    | inr (f, e) ↦
        rw (e, match_option)
          (writes.transform
            (at_batch channel writer hasher try_checked output transform r.batches_written f) lease
            s)
  ]

  -- From the lease as the channel left it, to the batch's arrival at the writer.
  arrived :
      (after : BatchLease Batch) (checked : CheckedIngestBatch Batch) (t0 t1 t2 t3 : S)
      → written t1 ≡ written t0
      → lift (try_checked after.batch) t1 ≡ (ok checked, t2)
      → writer.write checked.batch t2 ≡ (ok tt, t3)
      → (written t3 ≡ written t0 ++ after.batch ∷ []) × (checked.rows ≡ rows_of after.batch)
  arrived after checked t0 t1 t2 t3 quiet e f =
      let same = writes.checked after.batch checked (ap (λ p. p.0) e) in
      let back : written t2 ≡ written t0 = ap (λ p. written p.1) (sym e) ∙ quiet in
      (
        ap (λ p. written p.1) (sym f)
            ∙ writes.write checked.batch t2 (ap (λ p. p.0) f)
            ∙ ap (λ w. w ++ checked.batch ∷ []) back
            ∙ ap (λ b. written t0 ++ b ∷ []) same.0,
        same.1,
      )

  pub One-audited :
      (r : PipelineReport) (lease : BatchLease Batch) (s : S)
      → One hasher written rows_of r s
          (consume_one channel writer hasher try_checked output transform r lease s)
  unfolding consume_one accumulate_batch_stats
  One-audited r lease s =
      let s0 = (channel.is_cancelled s).1 in
      elim (Bool-cases (channel.is_cancelled s).0) [
        | inl c ↦ rw c tt
        | inr c ↦ rw c (
            and_then_lem (One hasher written rows_of r s)
              (transformed channel writer hasher try_checked output transform r lease) _ s0
              (λ after t1 e1.
                step_lem (One hasher written rows_of r s) _ (lift (try_checked after.batch)) _ t1
                  (λ checked t2 e2.
                    step_lem (One hasher written rows_of r s) _ (writer.write checked.batch) _ t2
                      (λ _ t3 e3.
                        let quiet : written t1 ≡ written s0 =
                          ap (λ p. written p.1) (sym e1) ∙ transformed_quiet r lease s0 in
                        let (there, rows) = arrived after checked s0 t1 t2 t3 quiet e2 e3 in
                        (
                          after.batch ∷ [],
                          there ∙ ap (λ w. w ++ after.batch ∷ []) (writes.flag s),
                          refl,
                          ap (λ x. r.rows_written + length x) rows ∙ omega arith,
                          ap (λ x. accumulate_batch_digest hasher r.content_digest x) rows,
                        ))
                      (λ x t3 e3. tt))
                  (λ x t2 e2. tt))
              (λ x t1 e1. tt))
      ]
