-- ===== src/Typestate/ContractPipeline/Guarantees.antt =====
-- What composition, build and run of crates/typestate/src/contract_pipeline.rs give together.
use datacrate.Common.{
  ℕ, ◌+◌, ◌≡◌, sym, subst, List, [], ◌∷◌, Result, ok, err, Action, and_then_lem, step_lem, length,
  arith,
}
use datacrate.Contracts.Shape.{TypeShape}
use datacrate.Contracts.Arrow.Validation.{RecordBatch, BatchValidator, validate, new_validator}
use datacrate.Typestate.ContractPipeline.{
  ContractPipelineError, error, ContractPipeline, ContractSink, PreparedTransform, PreparedPipeline,
  ContractRunReport, sink, build, process, run_batches, run,
}
use datacrate.Typestate.ContractPipeline.Counts.{
  Every, last_validator, Keeps, Counts, Accounts, Step, process_counts, run_counts,
}
use datacrate.Typestate.ContractPipeline.Connected.{Composed, sink_validator}

module _ {W E : Type 0} where
  -- A sink is called only with batches that pass its own declared contract, although the run checks only the outputs of
  -- the source and the transforms. So a property of the world and two counts that the other callbacks
  -- keep, and that such a call of the sink raises by a batch and its rows, ends at the counts of the
  -- report, or at the index of the error.
  pub connected_run :
      {c : ContractPipeline W E} (input : TypeShape) (f : RecordBatch → Action W E (Unit {0}))
      (s : ContractSink W E) (p : PreparedPipeline W E) (Q : W → ℕ → ℕ → Type 0) (w : W)
      → Composed c
      → sink input f c ≡ ok s
      → build s ≡ ok p
      → Every (λ step. (batch : RecordBatch) → Keeps p Q (step.callback batch)) p.transforms
      → ((v : BatchValidator) (batch : RecordBatch) (w : W) (b r : ℕ)
          → new_validator input ≡ ok v
          → validate v batch ≡ ok tt
          → Q w b r
          → Counts p Q batch (f batch w) b r)
      → Keeps p Q p.source
      → ((reads : List (Action W E RecordBatch)) (t : W)
          → p.source w ≡ (ok reads, t)
          → Every (Keeps p Q) reads)
      → Q w 0 0
      → Accounts p Q (run p w)
  connected_run {c} input f s p Q w composed attached built steps calls source reads q =
      let checked = sink_validator input f s p composed attached built in
      run_counts p Q steps
        (λ batch u b r passed q.
          subst (λ g. Counts p Q batch (g batch u) b r) (sym checked.0)
            (calls (last_validator p.source_validator p.transforms) batch u b r checked.1 passed q))
        w source reads q

  -- The run that succeeds has delivered every batch of the source.
  abbrev Total : ℕ → Result (ContractPipelineError E) ContractRunReport × W → Type 0
  Total n (ok report, w) = report.batches_processed ≡ n
  Total n (err e, w) = Unit {0}

  module _ (p : PreparedPipeline W E) where
    abbrev Nothing : W → ℕ → ℕ → Type 0
    Nothing w b r = Unit {0}

    every :
        (steps : List (PreparedTransform W E))
        → Every (λ step. (batch : RecordBatch) → Keeps p Nothing (step.callback batch)) steps
    every [] = tt
    every (step ∷ steps) = (λ batch w b r q. tt, every steps)

    nothing :
        (batch : RecordBatch) (o : Result E (Unit {0}) × W) (b r : ℕ) → Counts p Nothing batch o b r
    nothing batch (ok u, w) b r = tt
    nothing batch (err e, w) b r = tt

    total :
        (input : List (Action W E RecordBatch)) (report : ContractRunReport) (w : W)
        → Total (report.batches_processed + length input) (run_batches p input report w)
    unfolding run_batches
    total [] report w = omega arith
    total (received ∷ input) report w =
        let b = report.batches_processed in
        let r = report.rows_processed in
        let step =
          process_counts p Nothing (every p.transforms)
            (λ batch w b r _ _. nothing batch (p.sink batch w) b r) report received w
            (λ w b r q. tt) tt in
        and_then_lem (Total (b + length (received ∷ input))) (process p report received) _ w
          (λ next t e.
            let up : next.batches_processed ≡ b + 1 =
              (subst (λ o. Step p Nothing b r o) e step).0 in
            subst (λ n. Total n (run_batches p input next t)) (omega arith) (total input next t))
          (λ x t e. tt)

    abbrev Delivered : W → Result (ContractPipelineError E) ContractRunReport × W → Type 0
    Delivered w (ok report, t) =
        (input : List (Action W E RecordBatch)) × (u : W) × (p.source w ≡ (ok input, u))
        × (report.batches_processed ≡ length input)
    Delivered w (err e, t) = Unit {0}

    to_delivered :
        (w : W) (input : List (Action W E RecordBatch)) (u : W) (o : _)
        → p.source w ≡ (ok input, u)
        → Total (0 + length input) o
        → Delivered w o
    to_delivered w input u (ok report, t) e h = (input, u, e, omega arith)
    to_delivered w input u (err x, t) e h = tt

    -- A run that succeeds has opened the source, and its report counts every read of the source's iterator: none
    -- is skipped or counted twice.
    pub run_takes_all : (w : W) → Delivered w (run p w)
    unfolding run error
    run_takes_all w =
        step_lem (Delivered w) _ p.source _ w
          (λ input t e.
            to_delivered w input t _ e
              (total input (record { batches_processed = 0; rows_processed = 0 }) t))
          (λ x t e. tt)
