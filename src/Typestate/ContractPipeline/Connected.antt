-- ===== src/Typestate/ContractPipeline/Connected.antt =====
-- Pipelines composed by the calls of crates/typestate/src/contract_pipeline.rs: the declarations that
-- the compile-time checks connect, and the validators that build prepares from them.
use datacrate.Common.{
  ok_inj, err_ok, then-ok, ℕ, ◌+◌, ◌≡◌, refl, sym, ap, ◌∙◌, subst, true, List, [], ◌∷◌, ◌++◌,
  Result, ok, Action, inl, inr, Bool-cases, Result-cases, if◌then◌else◌,
}
use datacrate.Contracts.Shape.{TypeShape, exact_ordered}
use datacrate.Contracts.Compare.{conforms}
use datacrate.Contracts.Render.Message.{check_lem}
use datacrate.Contracts.Arrow.Exact.{validator-exact_ordered}
use datacrate.Contracts.Arrow.Validation.{RecordBatch, BatchValidator, new_validator}
use datacrate.Typestate.ContractPipeline.{
  Stage, source_stage, sink_stage, transform_stage, ContractPipelineError, TransformSpec,
  ContractPipeline, ContractSink, PreparedTransform, PreparedPipeline, source, transform, sink,
  enforce, prepare, prepare_transforms, build,
}
use datacrate.Typestate.ContractPipeline.Counts.{last_validator}

-- The output declared last.
abbrev pub last_declared : {W E : Type 0} → TypeShape → List (TransformSpec W E) → TypeShape
last_declared d [] = d
last_declared d (step ∷ steps) = last_declared step.prepare steps

-- A pipeline is a source and transforms whose connections passed the check.
pub data Composed {W E : Type 0} : ContractPipeline W E → Type 0 where
  from_source :
      (declared : TypeShape) (factory : Action W E (List (Action W E RecordBatch)))
      → Composed (source declared factory)
  with_transform :
      {p q : ContractPipeline W E} (input output : TypeShape)
      (f : RecordBatch → Action W E RecordBatch)
      → Composed p
      → transform input output f p ≡ ok q
      → Composed q

last_declared-append :
    {W E : Type 0} (d : TypeShape) (steps : List (TransformSpec W E)) (step : TransformSpec W E)
    → last_declared d (steps ++ step ∷ []) ≡ step.prepare
last_declared-append d [] step = refl
last_declared-append d (x ∷ steps) step = last_declared-append x.prepare steps step

-- A call that the check lets through.
pub enforce-ok :
    {A : Type 0} (p c : TypeShape) (rest : A) {out : A}
    → enforce p c rest ≡ ok out
    → (conforms p c exact_ordered ≡ true) × (rest ≡ out)
unfolding enforce
enforce-ok p c rest h = elim (Bool-cases (conforms p c exact_ordered)) [
  | inl e ↦ (e, ok_inj (rw (check_lem p c exact_ordered, e, if◌then◌else◌) at h))
  | inr e ↦ absurd (err_ok (rw (check_lem p c exact_ordered, e, if◌then◌else◌) at h))
]

pub Composed-declaration :
    {W E : Type 0} {p : ContractPipeline W E}
    → Composed p
    → p.declaration ≡ last_declared p.plan.prepare_source p.plan.transforms
unfolding source transform
Composed-declaration (from_source declared factory) = refl
Composed-declaration (with_transform {p} {q} input output f c h) =
    subst (λ x. x.declaration ≡ last_declared x.plan.prepare_source x.plan.transforms)
      (enforce-ok p.declaration input _ h).1
      (sym (last_declared-append p.plan.prepare_source p.plan.transforms _))

pub prepare-ok :
    {E : Type 0} (declared : TypeShape) (stage : Stage) {v : BatchValidator}
    → ◌≡◌ {A = Result (ContractPipelineError E) BatchValidator} (prepare declared stage) (ok v)
    → new_validator declared ≡ ok v
unfolding prepare
prepare-ok declared stage {v} h = elim (Result-cases (new_validator declared)) [
  | inl (u, k) ↦ k ∙ ap ok (ok_inj (rw k at h))
  | inr (e, k) ↦ absurd (err_ok (rw k at h))
]

module _ {W E : Type 0} where
  last_prepared :
      (steps : List (TransformSpec W E)) (k : ℕ) (d : TypeShape) (v : BatchValidator)
      {out : List (PreparedTransform W E)}
      → new_validator d ≡ ok v
      → prepare_transforms steps k ≡ ok out
      → new_validator (last_declared d steps) ≡ ok (last_validator v out)
  unfolding prepare_transforms
  last_prepared [] k d v is_v h = rw (← ok_inj h) is_v
  last_prepared (step ∷ steps) k d v is_v h =
      let (u, is_u, rest) = then-ok (prepare step.prepare (transform_stage k)) _ h in
      let (others, are, out_is) = then-ok (prepare_transforms steps (k + 1)) _ rest in
      rw (← ok_inj out_is) (
        last_prepared steps (k + 1) step.prepare u
          (prepare-ok step.prepare (transform_stage k) is_u) are)

  -- What a build that succeeds hands on.
  abbrev FromBuild : ContractSink W E → PreparedPipeline W E → Type 0
  FromBuild s p =
      (p.source ≡ s.plan.source)
      × (p.sink ≡ s.sink)
      × (new_validator (last_declared s.plan.prepare_source s.plan.transforms)
          ≡ ok (last_validator p.source_validator p.transforms))

  build-FromBuild :
      (s : ContractSink W E) (p : PreparedPipeline W E) → build s ≡ ok p → FromBuild s p
  unfolding build
  build-FromBuild s p h =
      let (v, is_v, h1) = then-ok (prepare s.plan.prepare_source source_stage) _ h in
      let (steps, are, h2) = then-ok (prepare_transforms s.plan.transforms 0) _ h1 in
      let (u, is_u, h3) = then-ok (prepare s.prepare_sink sink_stage) _ h2 in
      let last =
        last_prepared s.plan.transforms 0 s.plan.prepare_source v
          (prepare-ok s.plan.prepare_source source_stage is_v) are in
      subst (FromBuild s) (ok_inj h3) (refl, refl, last)

  -- The declaration of the sink prepares what that of the last stage does.
  pub sink_declared :
      (c : ContractPipeline W E) (input : TypeShape) (f : RecordBatch → Action W E (Unit {0}))
      (s : ContractSink W E)
      → Composed c
      → sink input f c ≡ ok s
      → (new_validator s.prepare_sink
          ≡ new_validator (last_declared s.plan.prepare_source s.plan.transforms))
        × (s.prepare_sink ≡ input)
        × (s.sink ≡ f)
  unfolding sink
  sink_declared c input f s composed attached =
      let (same, s_is) = enforce-ok c.declaration input _ attached in
      let end_of = Composed-declaration composed in
      subst
        (λ x.
          (new_validator x.prepare_sink
            ≡ new_validator (last_declared x.plan.prepare_source x.plan.transforms))
          × (x.prepare_sink ≡ input)
          × (x.sink ≡ f))
        s_is
        (
          sym (validator-exact_ordered c.declaration input same) ∙ ap new_validator end_of,
          refl,
          refl,
        )

  -- The check of the sink's connection makes its declaration one that prepares the validator of the
  -- last stage, so a batch that passes the last stage passes the sink's own declaration.
  pub sink_validator :
      {c : ContractPipeline W E} (input : TypeShape) (f : RecordBatch → Action W E (Unit {0}))
      (s : ContractSink W E) (p : PreparedPipeline W E)
      → Composed c
      → sink input f c ≡ ok s
      → build s ≡ ok p
      → (p.sink ≡ f) × (new_validator input ≡ ok (last_validator p.source_validator p.transforms))
  sink_validator {c} input f s p composed attached built =
      let (same, is_input, sink_of) = sink_declared c input f s composed attached in
      let (_, sink_is, last) = build-FromBuild s p built in
      (sink_is ∙ sink_of, ap new_validator (sym is_input) ∙ same ∙ last)
