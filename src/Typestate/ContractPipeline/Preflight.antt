-- ===== src/Typestate/ContractPipeline/Preflight.antt =====
-- When build of crates/typestate/src/contract_pipeline.rs succeeds.
use datacrate.Common.{ℕ, ◌+◌, ◌≡◌, ◌↔◌, refl, List, [], ◌∷◌, Result, ok, err, Action, then-ok}
use datacrate.Contracts.Shape.{TypeShape}
use datacrate.Contracts.Arrow.Supported.{IsOk}
use datacrate.Contracts.Arrow.Validation.{RecordBatch, BatchValidator, new_validator}
use datacrate.Typestate.ContractPipeline.{
  Stage, source_stage, sink_stage, transform_stage, ContractPipelineError, TransformSpec,
  ContractPipeline, ContractSink, PreparedTransform, sink, prepare, prepare_transforms, build,
}
use datacrate.Typestate.ContractPipeline.Counts.{Every}
use datacrate.Typestate.ContractPipeline.Connected.{
  Composed, sink_declared, prepare-ok, last_declared,
}

IsOk-intro : {E A : Type 0} {r : Result E A} {a : A} → r ≡ ok a → IsOk r
IsOk-intro e = rw e tt

IsOk-of : {E A : Type 0} (r : Result E A) → IsOk r → (a : A) × (r ≡ ok a)
IsOk-of (ok a) h = (a, refl)
IsOk-of (err e) h = absurd h

prepare_of :
    {E : Type 0} (declared : TypeShape) (stage : Stage) (v : BatchValidator)
    → new_validator declared ≡ ok v
    → ◌≡◌ {A = Result (ContractPipelineError E) BatchValidator} (prepare declared stage) (ok v)
unfolding prepare
prepare_of declared stage v k = rw k refl

-- Every declaration of the transforms can be mapped.
abbrev pub AllMapped : {W E : Type 0} → List (TransformSpec W E) → Type 0
AllMapped steps = Every (λ step. IsOk (new_validator step.prepare)) steps

module _ {W E : Type 0} where
  transforms_mapped :
      (steps : List (TransformSpec W E)) (k : ℕ) {out : List (PreparedTransform W E)}
      → prepare_transforms steps k ≡ ok out
      → AllMapped steps
  unfolding prepare_transforms
  transforms_mapped [] k h = tt
  transforms_mapped (step ∷ steps) k h =
      let (u, is_u, rest) = then-ok (prepare step.prepare (transform_stage k)) _ h in
      let (others, are, _) = then-ok (prepare_transforms steps (k + 1)) _ rest in
      (
        IsOk-intro (prepare-ok step.prepare (transform_stage k) is_u),
        transforms_mapped steps (k + 1) are,
      )

  transforms_of :
      (steps : List (TransformSpec W E)) (k : ℕ)
      → AllMapped steps
      → (out : List (PreparedTransform W E)) × (prepare_transforms steps k ≡ ok out)
  unfolding prepare_transforms
  transforms_of [] k h = ([], refl)
  transforms_of (step ∷ steps) k h =
      let (v, is_v) = IsOk-of (new_validator step.prepare) h.0 in
      let (others, are) = transforms_of steps (k + 1) h.1 in
      (
        record { callback = step.callback; validator = v } ∷ others,
        rw (prepare_of {E = E} step.prepare (transform_stage k) v is_v, are) refl,
      )

  last_mapped :
      (steps : List (TransformSpec W E)) (d : TypeShape)
      → IsOk (new_validator d)
      → AllMapped steps
      → IsOk (new_validator (last_declared d steps))
  last_mapped [] d m h = m
  last_mapped (step ∷ steps) d m h = last_mapped steps step.prepare h.0 h.1

  -- Build succeeds exactly where the declarations of the source and of every transform can be mapped to Arrow; the
  -- preflight of the sink adds no failure, since its connection has been checked.
  pub build_iff :
      {c : ContractPipeline W E} (input : TypeShape) (f : RecordBatch → Action W E (Unit {0}))
      (s : ContractSink W E)
      → Composed c
      → sink input f c ≡ ok s
      → IsOk (build s) ↔ (IsOk (new_validator s.plan.prepare_source) × AllMapped s.plan.transforms)
  unfolding build sink
  build_iff {c} input f s composed attached = (
    λ h.
        let (p, built) = IsOk-of (build s) h in
        let (v, is_v, h1) = then-ok (prepare s.plan.prepare_source source_stage) _ built in
        let (steps, are, _) = then-ok (prepare_transforms s.plan.transforms 0) _ h1 in
        (
          IsOk-intro (prepare-ok s.plan.prepare_source source_stage is_v),
          transforms_mapped s.plan.transforms 0 are,
        ),
    λ h.
        let (v, is_v) = IsOk-of (new_validator s.plan.prepare_source) h.0 in
        let (steps, are) = transforms_of s.plan.transforms 0 h.1 in
        let (u, is_u) = IsOk-of (new_validator s.prepare_sink) (
          rw (sink_declared c input f s composed attached).0
            (last_mapped s.plan.transforms s.plan.prepare_source h.0 h.1)) in
        rw
          (
            prepare_of {E = E} s.plan.prepare_source source_stage v is_v,
            are,
            prepare_of {E = E} s.prepare_sink sink_stage u is_u,
          )
          tt,
  )
