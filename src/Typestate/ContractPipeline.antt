-- ===== src/Typestate/ContractPipeline.antt =====
-- crates/typestate/src/contract_pipeline.rs: composition with a check of the declarations at every
-- connection, preflight of the physical mappings, and the run. Callbacks act on a world `W` and fail
-- with an `E`; the source's iterator is the finite list of its reads. A check that stops the build of
-- the program is an error with its message.
pub mod Counts
pub mod Connected
pub mod Guarantees
pub mod Preflight
mod Examples
use datacrate.Common.{
  ℕ, zero, suc, ◌+◌, Bool, true, false, ◌||◌, List, [], ◌∷◌, ◌++◌, Option, none, some, Text, Result,
  ok, err, ◌>>=◌, map_err, Action, return, lift, and_then, fail_with, ltb, if◌then◌else◌,
  match_option,
}
use datacrate.Contracts.Shape.{TypeShape, exact_ordered}
use datacrate.Contracts.Render.{check}
use datacrate.Contracts.Arrow.{MappingError}
use datacrate.Contracts.Arrow.Validation.{
  RecordBatch, BatchValidationError, BatchValidator, new_validator, validate,
}
use datacrate.Pipeline.Transport.{usize_max}

pub data Stage : Type 0 where
  source_factory source_stage sink_stage : Stage
  transform_stage : ℕ → Stage

pub data Failure (E : Type 0) : Type 0 where
  mapping : MappingError → Failure E
  validation : BatchValidationError → Failure E
  callback_failed : E → Failure E
  count_overflow : Failure E

pub record ContractPipelineError (E : Type 0) : Type 0 where
  pub stage : Stage
  pub batch_index : Option ℕ
  pub failure : Failure E

-- `error`
unfoldable pub error : {E : Type 0} → Stage → Option ℕ → Failure E → ContractPipelineError E
error stage index failure = record { stage = stage; batch_index = index; failure = failure }

-- A `Prepare` is `BatchValidator::new::<C>`, given by the shape of C.
pub record TransformSpec (W E : Type 0) : Type 0 where
  pub callback : RecordBatch → Action W E RecordBatch
  pub prepare : TypeShape

pub record Plan (W E : Type 0) : Type 0 where
  pub source : Action W E (List (Action W E RecordBatch))
  pub prepare_source : TypeShape
  pub transforms : List (TransformSpec W E)

pub record ContractPipeline (W E : Type 0) : Type 0 where
  pub plan : Plan W E
  pub declaration : TypeShape

pub record ContractSink (W E : Type 0) : Type 0 where
  pub plan : Plan W E
  pub sink : RecordBatch → Action W E (Unit {0})
  pub prepare_sink : TypeShape

pub record PreparedTransform (W E : Type 0) : Type 0 where
  pub callback : RecordBatch → Action W E RecordBatch
  pub validator : BatchValidator

pub record PreparedPipeline (W E : Type 0) : Type 0 where
  pub source : Action W E (List (Action W E RecordBatch))
  pub source_validator : BatchValidator
  pub transforms : List (PreparedTransform W E)
  pub sink : RecordBatch → Action W E (Unit {0})

pub record ContractRunReport : Type 0 where
  pub batches_processed : ℕ
  pub rows_processed : ℕ

-- `checked_add`
unfoldable pub checked_add : ℕ → ℕ → Option ℕ
checked_add a b = if ltb usize_max (a + b) then none else some (a + b)

-- `contracts::enforce::<P, C, ExactOrdered>()`, before the rest of the call.
unfoldable pub enforce : {A : Type 0} → TypeShape → TypeShape → A → Result Text A
enforce producer contract rest =
    match_option (check producer contract exact_ordered) (ok rest) (λ message. err message)

unfoldable pub prepare :
    {E : Type 0} → TypeShape → Stage → Result (ContractPipelineError E) BatchValidator
unfolding error new_validator
prepare declared stage = map_err (λ e. error stage none (mapping e)) (new_validator declared)

-- The function `validate`.
unfoldable pub validate_batch :
    {E : Type 0}
    → BatchValidator
    → RecordBatch
    → Stage
    → ℕ
    → Result (ContractPipelineError E) (Unit {0})
unfolding error validate
validate_batch v batch stage index =
    map_err (λ e. error stage (some index) (validation e)) (validate v batch)

module _ {W E : Type 0} where
  unfoldable pub source :
      TypeShape → Action W E (List (Action W E RecordBatch)) → ContractPipeline W E
  source declared factory = record {
    plan = record { source = factory; prepare_source = declared; transforms = [] };
    declaration = declared;
  }

  -- `transform::<I, O>`
  unfoldable pub transform :
      TypeShape
      → TypeShape
      → (RecordBatch → Action W E RecordBatch)
      → ContractPipeline W E
      → Result Text (ContractPipeline W E)
  unfolding enforce
  transform input output f p =
      let step : TransformSpec W E = record { callback = f; prepare = output } in
      enforce p.declaration input (record {
        plan = record p.plan { transforms = p.plan.transforms ++ step ∷ [] };
        declaration = output;
      })

  -- `sink::<I>`
  unfoldable pub sink :
      TypeShape
      → (RecordBatch → Action W E (Unit {0}))
      → ContractPipeline W E
      → Result Text (ContractSink W E)
  unfolding enforce
  sink input f p =
      enforce p.declaration input (record { plan = p.plan; sink = f; prepare_sink = input })

  unfoldable pub prepare_transforms :
      List (TransformSpec W E) → ℕ → Result (ContractPipelineError E) (List (PreparedTransform W E))
  unfolding prepare
  prepare_transforms [] index = ok []
  prepare_transforms (step ∷ steps) index = do
    validator ← prepare step.prepare (transform_stage index)
    rest ← prepare_transforms steps (index + 1)
    ok (record { callback = step.callback; validator = validator } ∷ rest)

  unfoldable pub build : ContractSink W E → Result (ContractPipelineError E) (PreparedPipeline W E)
  unfolding prepare prepare_transforms
  build s = do
    source_validator ← prepare s.plan.prepare_source source_stage
    transforms ← prepare_transforms s.plan.transforms 0
    sink_validator ← prepare s.prepare_sink sink_stage
    ok (record {
      source = s.plan.source;
      source_validator = source_validator;
      transforms = transforms;
      sink = s.sink;
    })

  -- The loop over the transforms.
  unfoldable pub run_transforms :
      List (PreparedTransform W E)
      → ℕ
      → ℕ
      → RecordBatch
      → Action W (ContractPipelineError E) RecordBatch
  unfolding error validate_batch
  run_transforms [] step_index index batch = return batch
  run_transforms (step ∷ steps) step_index index batch =
      let stage = transform_stage step_index in
      and_then (fail_with (λ e. error stage (some index) (callback_failed e)) (step.callback batch))
        λ out.
          and_then (lift (validate_batch step.validator out stage index))
            λ _. run_transforms steps (step_index + 1) index out

  -- The counters are raised before the sink is called, and kept after it succeeded.
  unfoldable pub deliver :
      PreparedPipeline W E
      → ContractRunReport
      → RecordBatch
      → Action W (ContractPipelineError E) ContractRunReport
  unfolding error checked_add
  deliver p report batch =
      let index = some report.batches_processed in
      let overflow = lift (err (error sink_stage index count_overflow)) in
      match_option (checked_add report.batches_processed 1) overflow λ batches.
        match_option (checked_add report.rows_processed batch.num_rows) overflow λ rows.
          and_then (fail_with (λ e. error sink_stage index (callback_failed e)) (p.sink batch))
            λ _. return (record { batches_processed = batches; rows_processed = rows })

  -- The body of the loop over the input, and the loop.
  unfoldable pub process :
      PreparedPipeline W E
      → ContractRunReport
      → Action W E RecordBatch
      → Action W (ContractPipelineError E) ContractRunReport
  unfolding error validate_batch run_transforms deliver
  process p report received =
      let index = report.batches_processed in
      and_then (fail_with (λ e. error source_stage (some index) (callback_failed e)) received)
        λ batch.
          and_then (lift (validate_batch p.source_validator batch source_stage index))
            λ _. and_then (run_transforms p.transforms 0 index batch) (deliver p report)

  unfoldable pub run_batches :
      PreparedPipeline W E
      → List (Action W E RecordBatch)
      → ContractRunReport
      → Action W (ContractPipelineError E) ContractRunReport
  unfolding process
  run_batches p [] report = return report
  run_batches p (received ∷ input) report =
      and_then (process p report received) (λ next. run_batches p input next)

  unfoldable pub run : PreparedPipeline W E → Action W (ContractPipelineError E) ContractRunReport
  unfolding error run_batches
  run p =
      and_then (fail_with (λ e. error source_factory none (callback_failed e)) p.source)
        λ input. run_batches p input (record { batches_processed = 0; rows_processed = 0 })
