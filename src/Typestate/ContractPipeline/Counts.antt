-- ===== src/Typestate/ContractPipeline/Counts.antt =====
-- What a run of crates/typestate/src/contract_pipeline.rs does to the world, by a property that the
-- callbacks keep and that counts the sink's successful calls and rows.
use datacrate.Common.{
  ℕ, ◌+◌, ◌≤◌, ◌≡◌, refl, subst, List, [], ◌∷◌, Option, none, some, Result, ok, err, Action, lift,
  and_then, and_then_lem, step_lem, arith, Bool-cases, Result-cases, inl, inr, ltb, false,
  if◌then◌else◌,
}
use datacrate.Contracts.Arrow.Validation.{RecordBatch, BatchValidator, validate}
use datacrate.Pipeline.Transport.{usize_max}
use datacrate.Typestate.ContractPipeline.{
  Stage, source_stage, transform_stage, validation, ContractPipelineError, error, PreparedTransform,
  PreparedPipeline, ContractRunReport, checked_add, validate_batch, run_transforms, deliver,
  process, run_batches, run,
}

abbrev pub Every : {A : Type 0} → (A → Type 0) → List A → Type 0
Every P [] = Unit {0}
Every P (x ∷ xs) = P x × Every P xs

-- The validator that a batch for the sink has passed last.
abbrev pub last_validator :
    {W E : Type 0} → BatchValidator → List (PreparedTransform W E) → BatchValidator
last_validator v [] = v
last_validator v (step ∷ steps) = last_validator step.validator steps

abbrev pub index_or_zero : Option ℕ → ℕ
index_or_zero none = 0
index_or_zero (some i) = i

-- A validation within a chain.
validated :
    {W E B : Type 0} (T : Result (ContractPipelineError E) B × W → Type 0) (v : BatchValidator)
    (batch : RecordBatch) (stage : Stage) (index : ℕ)
    (f : Unit {0} → Action W (ContractPipelineError E) B) (s : W)
    → (validate v batch ≡ ok tt → T (f tt s))
    → ((e : ContractPipelineError E) → e.batch_index ≡ some index → T (err e, s))
    → T (and_then (lift (validate_batch v batch stage index)) f s)
unfolding validate_batch error and_then
validated T v batch stage index f s on_ok on_err = elim (Result-cases (validate v batch)) [
  | inl (u, k) ↦ rw k (on_ok k)
  | inr (e, k) ↦ rw k (on_err (error stage (some index) (validation e)) refl)
]

le_of_not : {a b : ℕ} → ltb a b ≡ false → b ≤ a
le_of_not h = ground arith

module _ {W E : Type 0} (p : PreparedPipeline W E) (Q : W → ℕ → ℕ → Type 0) where
  -- Whatever the step returns, it leaves the property as it is.
  abbrev pub Keeps : {A : Type 0} → Action W E A → Type 0
  Keeps m = (w : W) (b r : ℕ) → Q w b r → Q (m w).1 b r

  -- A successful call of the sink adds one batch and its rows, a failed one nothing.
  abbrev pub Counts : RecordBatch → Result E (Unit {0}) × W → ℕ → ℕ → Type 0
  Counts batch (ok _, w) b r = Q w (b + 1) (r + batch.num_rows)
  Counts batch (err _, w) b r = Q w b r

  abbrev pub Source : Type 0
  Source = Action W E (List (Action W E RecordBatch))

  -- The outcome of the step on one batch, before the sink.
  abbrev Ready : BatchValidator → ℕ → ℕ → Result (ContractPipelineError E) RecordBatch × W → Type 0
  Ready last b r (ok batch, w) = (validate last batch ≡ ok tt) × Q w b r
  Ready last b r (err e, w) = (e.batch_index ≡ some b) × Q w b r

  -- The outcome of a run: the report counts what the world does, and so does the index of an error.
  abbrev pub Accounts : Result (ContractPipelineError E) ContractRunReport × W → Type 0
  Accounts (ok report, w) =
      Q w report.batches_processed report.rows_processed
      × (report.batches_processed ≤ usize_max)
      × (report.rows_processed ≤ usize_max)
  Accounts (err e, w) = (r : ℕ) × Q w (index_or_zero e.batch_index) r

  -- The outcome of one batch.
  abbrev pub Step : ℕ → ℕ → Result (ContractPipelineError E) ContractRunReport × W → Type 0
  Step b r (ok next, w) =
      (next.batches_processed ≡ b + 1)
      × Q w next.batches_processed next.rows_processed
      × (next.batches_processed ≤ usize_max)
      × (next.rows_processed ≤ usize_max)
  Step b r (err e, w) = (e.batch_index ≡ some b) × Q w b r

  at :
      {A : Type 0} (m : Action W E A) {w t : W} {b r : ℕ} {x : Result E A}
      → Keeps m
      → Q w b r
      → m w ≡ (x, t)
      → Q t b r
  at m {w} {t} {b} {r} kept q e = subst (λ o. Q o.1 b r) e (kept w b r q)

  transforms-Ready :
      (steps : List (PreparedTransform W E)) (k : ℕ) (last : BatchValidator) (batch : RecordBatch)
      (w : W) (b r : ℕ)
      → Every (λ step. (batch : RecordBatch) → Keeps (step.callback batch)) steps
      → validate last batch ≡ ok tt
      → Q w b r
      → Ready (last_validator last steps) b r (run_transforms steps k b batch w)
  unfolding run_transforms error
  transforms-Ready [] k last batch w b r kept v q = (v, q)
  transforms-Ready (step ∷ steps) k last batch w b r kept v q =
      step_lem (Ready (last_validator step.validator steps) b r) _ (step.callback batch) _ w
        (λ out t e.
          validated (Ready (last_validator step.validator steps) b r) step.validator out
            (transform_stage k) b _ t
            (λ passed.
              transforms-Ready steps (k + 1) step.validator out t b r kept.1 passed
                (at (step.callback batch) (kept.0 batch) q e))
            (λ x index. (index, at (step.callback batch) (kept.0 batch) q e)))
        (λ x t e. (refl, at (step.callback batch) (kept.0 batch) q e))

  module _
      (transforms_keep : Every
        (λ step. (batch : RecordBatch) → Keeps (step.callback batch))
        p.transforms)
      (sink_counts : (batch : RecordBatch) (w : W) (b r : ℕ)
        → validate (last_validator p.source_validator p.transforms) batch ≡ ok tt
        → Q w b r
        → Counts batch (p.sink batch w) b r) where
    sunk :
        (batch : RecordBatch) (b r : ℕ) {x y : Result E (Unit {0}) × W}
        → x ≡ y
        → Counts batch x b r
        → Counts batch y b r
    sunk batch b r {x} {y} e c = subst (λ o. Counts batch o b r) e c

    deliver_counts :
        (report : ContractRunReport) (batch : RecordBatch) (w : W)
        → validate (last_validator p.source_validator p.transforms) batch ≡ ok tt
        → Q w report.batches_processed report.rows_processed
        → Step report.batches_processed report.rows_processed (deliver p report batch w)
    unfolding deliver error checked_add
    deliver_counts report batch w v q =
        elim (Bool-cases (ltb usize_max (report.batches_processed + 1))) [
          | inl over ↦ rw (over, if◌then◌else◌) (refl, q)
          | inr fits ↦ elim (Bool-cases (ltb usize_max (report.rows_processed + batch.num_rows))) [
            | inl over ↦ rw (fits, over, if◌then◌else◌) (refl, q)
            | inr rows_fit ↦
                let b = report.batches_processed in
                let r = report.rows_processed in
                rw (fits, rows_fit, if◌then◌else◌)
                  (step_lem (Step b r) _ (p.sink batch) _ w
                    (λ u t e. (
                      refl,
                      sunk batch b r e (sink_counts batch w b r v q),
                      le_of_not fits,
                      le_of_not rows_fit,
                    ))
                    (λ x t e. (refl, sunk batch b r e (sink_counts batch w b r v q))))
          ]
        ]

    pub process_counts :
        (report : ContractRunReport) (received : Action W E RecordBatch) (w : W)
        → Keeps received
        → Q w report.batches_processed report.rows_processed
        → Step report.batches_processed report.rows_processed (process p report received w)
    unfolding process error
    process_counts report received w kept q =
        let b = report.batches_processed in
        let r = report.rows_processed in
        step_lem (Step b r) _ received _ w
          (λ batch t e.
            let q' = at received kept q e in
            let last = last_validator p.source_validator p.transforms in
            let ready = λ (passed : validate p.source_validator batch ≡ ok tt).
              transforms-Ready p.transforms 0 p.source_validator batch t b r transforms_keep passed
                q' in
            validated (Step b r) p.source_validator batch source_stage b _ t
              (λ passed.
                and_then_lem (Step b r) (run_transforms p.transforms 0 b batch) _ t
                  (λ out u k.
                    let both = subst (λ o. Ready last b r o) k (ready passed) in
                    deliver_counts report out u both.0 both.1)
                  (λ x u k. subst (λ o. Ready last b r o) k (ready passed)))
              (λ x index. (index, q')))
          (λ x t e. (refl, at received kept q e))

    -- The counters stay what they are at the head of the loop.
    batches_count :
        (input : List (Action W E RecordBatch)) (report : ContractRunReport) (w : W)
        → Every Keeps input
        → Accounts (ok report, w)
        → Accounts (run_batches p input report w)
    unfolding run_batches
    batches_count [] report w kept q = q
    batches_count (received ∷ input) report w kept q =
        let b = report.batches_processed in
        let r = report.rows_processed in
        let step = process_counts report received w kept.0 q.0 in
        and_then_lem Accounts (process p report received) _ w
          (λ next t e.
            let (_, counted, fits, rows_fit) = subst (λ o. Step b r o) e step in
            batches_count input next t kept.1 (counted, fits, rows_fit))
          (λ x t e. let failed = subst (λ o. Step b r o) e step in (r, rw failed.0 failed.1))

    -- Let a property of the world and two counts be kept by the source, its reads and the transforms, and let the
    -- sink, called on a batch that passed its validation, add a batch and its rows when it succeeds
    -- and nothing when it fails. If the property holds at 0 and 0 before a run, then after it, if the run
    -- succeeds, it holds at the counts of the report, which fit in `usize`; and if it fails, at the batch
    -- index of the error, or 0 where there is none.
    pub run_counts :
        (w : W)
        → Keeps p.source
        → ((input : List (Action W E RecordBatch)) (t : W)
            → p.source w ≡ (ok input, t)
            → Every Keeps input)
        → Q w 0 0
        → Accounts (run p w)
    unfolding run error
    run_counts w source_keeps reads_keep q =
        step_lem Accounts _ p.source _ w
          (λ input t e.
            batches_count input (record { batches_processed = 0; rows_processed = 0 }) t
              (reads_keep input t e) (at p.source source_keeps q e, omega arith, omega arith))
          (λ x t e. (0, at p.source source_keeps q e))
