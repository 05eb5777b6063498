-- ===== src/Contracts/Arrow/Declared.antt =====
-- From a declaration through crates/contracts/src/arrow.rs and crates/contracts/src/arrow/validation.rs
-- to the batches that pass: the schema of such a batch against the declared shape.
use datacrate.Common.{ok_inj, then-ok, [], ok, ◌≡◌, refl, sym, ap, ◌∙◌}
use datacrate.Contracts.Shape.{sequence, struct, Fields}
use datacrate.Contracts.Arrow.{
  DataType, leaf, list, struct_type, map_type, Field, arrow_field, FieldList, end, more, schema,
}
use datacrate.Contracts.Arrow.RoundTrip.{
  name_of, layer, shape_of, type_shape, field_shapes, canonical_fields, fields_read,
}
use datacrate.Contracts.Arrow.Matches.{bare, bare_type, bare_fields}
use datacrate.Contracts.Arrow.Validation.{BatchValidator, RecordBatch, new_validator, validate}
use datacrate.Contracts.Arrow.Batches.{batch_valid_iff}

name_of-bare : (f : Field) → name_of (bare f) ≡ name_of f
name_of-bare (arrow_field _ _ _ _) = refl

-- Reading a shape back does not look at metadata.
mutual
  shape_of-bare : (f : Field) → shape_of (bare f) ≡ shape_of f
  shape_of-bare (arrow_field _ data_type nullable _) =
      ap (layer nullable) (type_shape-bare data_type)

  type_shape-bare : (t : DataType) → type_shape (bare_type t) ≡ type_shape t
  type_shape-bare (leaf l) = refl
  type_shape-bare (list item) = ap sequence (shape_of-bare item)
  type_shape-bare (struct_type fields) = ap struct (field_shapes-bare fields)
  type_shape-bare (map_type (arrow_field _ (struct_type (more key (more value end))) _ _) _) =
      rw (shape_of-bare key, shape_of-bare value) refl
  type_shape-bare (map_type (arrow_field _ (struct_type fields) nullable _) _) =
      ap (λ x. sequence (layer nullable (struct x))) (field_shapes-bare fields)
  type_shape-bare (map_type entries _) = ap sequence (shape_of-bare entries)

  field_shapes-bare : (fs : FieldList) → field_shapes (bare_fields fs) ≡ field_shapes fs
  field_shapes-bare end = refl
  field_shapes-bare (more f rest) =
      rw (name_of-bare f, shape_of-bare f, field_shapes-bare rest) refl

-- A batch that passes the validator of a declared struct has a schema that reads back as that struct: its fields in
-- order, their names, types and optionality, at every depth; only default marks and the choice
-- between the two text labels are not in it.
pub declared :
    (fields : Fields) (v : BatchValidator) (batch : RecordBatch)
    → new_validator (struct fields) ≡ ok v
    → validate v batch ≡ ok tt
    → field_shapes batch.fields ≡ canonical_fields fields
unfolding new_validator
declared fields v batch prepared passed =
    let (expected, mapped, is_v) = then-ok (schema (struct fields)) _ prepared in
    let same : bare_fields v.schema ≡ bare_fields batch.fields =
      ((batch_valid_iff v batch).0 passed).0 in
    let read = fields_read fields [] [] 0 mapped in
    let schema_is : expected ≡ v.schema = ap (λ w. BatchValidator.schema w) (ok_inj is_v) in
    sym (field_shapes-bare batch.fields)
    ∙ ap field_shapes (sym same)
    ∙ field_shapes-bare v.schema
    ∙ ap field_shapes (sym schema_is)
    ∙ read
