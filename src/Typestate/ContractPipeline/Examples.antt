-- ===== src/Typestate/ContractPipeline/Examples.antt =====
-- A pipeline of crates/typestate/src/contract_pipeline.rs whose sink keeps what it is given.
use datacrate.Common.{
  ℕ, ◌≡◌, refl, ap, subst, ok_inj, false, List, [], ◌∷◌, ◌++◌, none, text, Result, ok, Action,
  return, and_then, fail_with, arith, length, length-append, ◌↔◌,
}
use datacrate.Contracts.Names.{str_eq}
use datacrate.Contracts.Shape.{TypeShape, primitive, struct, nil, field, exact_ordered}
use datacrate.Contracts.Render.{check}
use datacrate.Contracts.Render.Message.{check_lem}
use datacrate.Contracts.Compare.{shape_eq}
use datacrate.Contracts.Compare.Ordered.{conforms-shape_eq}
use datacrate.Contracts.Arrow.{
  int64, leaf, end, more, new_field, FieldList, schema, struct_fields, within_depth, primitive_type,
  field_path,
}
use datacrate.Contracts.Arrow.Supported.{IsOk}
use datacrate.Contracts.Arrow.Validation.{
  values_array, column, no_columns, RecordBatch, BatchValidator, root_nodes, new_validator,
  validate, new_node, name,
}
use datacrate.Typestate.ContractPipeline.{
  ContractPipeline, ContractSink, PreparedPipeline, source, transform, sink, enforce, build,
  prepare, prepare_transforms, run, run_batches, process, deliver, run_transforms, validate_batch,
  checked_add,
}
use datacrate.Typestate.ContractPipeline.Counts.{Accounts, Every}
use datacrate.Typestate.ContractPipeline.Connected.{Composed, from_source, with_transform}
use datacrate.Typestate.ContractPipeline.Guarantees.{connected_run}
use datacrate.Typestate.ContractPipeline.Preflight.{AllMapped, build_iff}

abbrev Kept : Type 0
Kept = List RecordBatch

abbrev ids : TypeShape
ids = struct (field (text "id") (primitive (text "i64")) false nil)

abbrev id_fields : FieldList
id_fields = more (new_field (text "id") (leaf int64) false) end

abbrev id_validator : BatchValidator
id_validator = record { schema = id_fields; fields = root_nodes id_fields }

abbrev batch : ℕ → RecordBatch
batch n = record {
  fields = id_fields;
  columns = column (values_array (λ _. false)) no_columns;
  num_rows = n;
}

abbrev two_batches : Action Kept ℕ (List (Action Kept ℕ RecordBatch))
two_batches = return (return (batch 2) ∷ return (batch 1) ∷ [])

abbrev keep : RecordBatch → Action Kept ℕ (Unit {0})
keep b kept = (ok tt, kept ++ b ∷ [])

abbrev from_ids : ContractPipeline Kept ℕ
from_ids = source ids two_batches

abbrev unchanged : RecordBatch → Action Kept ℕ RecordBatch
unchanged b = return b

abbrev with_step : ContractPipeline Kept ℕ
with_step = record {
  plan = record {
    source = two_batches;
    prepare_source = ids;
    transforms = record { callback = unchanged; prepare = ids } ∷ [];
  };
  declaration = ids;
}

abbrev with_sink : ContractSink Kept ℕ
with_sink = record { plan = with_step.plan; sink = keep; prepare_sink = ids }

abbrev prepared : PreparedPipeline Kept ℕ
prepared = record {
  source = two_batches;
  source_validator = id_validator;
  transforms = record { callback = unchanged; validator = id_validator } ∷ [];
  sink = keep;
}

ids_match : check ids ids exact_ordered ≡ none
unfolding shape_eq str_eq
ids_match = rw (check_lem ids ids exact_ordered, conforms-shape_eq ids ids) refl

step_added : transform ids ids unchanged from_ids ≡ ok with_step
unfolding transform source enforce
step_added = rw ids_match refl

sink_added : sink ids keep with_step ≡ ok with_sink
unfolding sink enforce
sink_added = rw ids_match refl

composed : Composed with_step
composed = with_transform ids ids unchanged (from_source ids two_batches) step_added

built : build with_sink ≡ ok prepared
unfolding build prepare prepare_transforms new_validator schema struct_fields within_depth
    primitive_type str_eq field_path
built = refl

-- The world holds as many batches as are counted.
abbrev Holding : Kept → ℕ → ℕ → Type 0
Holding kept b r = length kept ≡ b

connected_run_example : Accounts prepared Holding (run prepared [])
connected_run_example =
    connected_run ids keep with_sink prepared Holding [] composed sink_added built
      ((λ b w n r q. q), tt) (λ v b w n r is passed q. omega (arith, length-append w (b ∷ [])))
      (λ w n r q. q) (λ reads t e. reads_keep reads (ap (λ o. o.0) e)) refl
  where
    reads_keep :
        (reads : List (Action Kept ℕ RecordBatch))
        → ◌≡◌ {A = Result ℕ (List (Action Kept ℕ RecordBatch))}
            (ok (return (batch 2) ∷ return (batch 1) ∷ []))
            (ok reads)
        → Every (λ m. (w : Kept) (n r : ℕ) → Holding w n r → Holding (m w).1 n r) reads
    reads_keep reads e =
        subst (Every (λ m. (w : Kept) (n r : ℕ) → Holding w n r → Holding (m w).1 n r)) (ok_inj e)
          ((λ w n r q. q), ((λ w n r q. q), tt))

build_iff_example :
    IsOk (build with_sink)
    ↔ (IsOk (new_validator with_sink.plan.prepare_source) × AllMapped with_sink.plan.transforms)
build_iff_example = build_iff ids keep with_sink composed sink_added

-- Both batches reach the sink, in order, and are counted.
both_delivered :
    run prepared []
    ≡ (ok (record { batches_processed = 2; rows_processed = 3 }), batch 2 ∷ batch 1 ∷ [])
unfolding run run_batches process deliver run_transforms validate_batch checked_add validate
    and_then fail_with str_eq new_node name root_nodes
both_delivered = refl
