-- ===== src/Contracts/Arrow/Examples.antt =====
-- crates/contracts/src/arrow.rs and crates/contracts/src/arrow/validation.rs on concrete declarations and
-- batches, in the manner of the crate's own tests.
use datacrate.Common.{
  ℕ, ◌+◌, ◌*◌, ◌≤◌, ◌<◌, ◌≡◌, ◌↔◌, refl, Bool, true, false, text, ok, err, ltb, ◌==◌,
}
use datacrate.Contracts.Names.{str_eq}
use datacrate.Contracts.Shape.{
  TypeShape, primitive, optional, sequence, map, struct, Fields, nil, field,
}
use datacrate.Contracts.Arrow.{
  int64, utf8, leaf, list, Field, FieldList, end, more, new_field, entries_type, nested_optional,
  invalid_map_key, depth_limit, max_depth, map_field, map_layers, within_depth, struct_fields,
  schema, primitive_type, is_map_key, field_path,
}
use datacrate.Contracts.Arrow.Supported.{IsOk, height, IsMappable, map_field_iff}
use datacrate.Contracts.Arrow.RoundTrip.{
  name_of, shape_of, canonical, field_shapes, canonical_fields, map_field_round,
}
use datacrate.Contracts.Arrow.Matches.{bare_fields}
use datacrate.Contracts.Arrow.Validation.{
  Array, values_array, list_array, no_columns, column, RecordBatch, required_null, Node,
  BatchValidator, new_validator, validate, root_nodes, new_node, name,
}
use datacrate.Contracts.Arrow.Active.{InColumns, IsFine, Blames}
use datacrate.Contracts.Arrow.Batches.{batch_valid_iff, validate_refused}
use datacrate.Contracts.Arrow.Declared.{declared}

abbrev lookup : TypeShape
lookup = map (primitive (text "String")) (optional (primitive (text "i64")))

abbrev lookup_field : Field
lookup_field =
    new_field (text "lookup")
      (entries_type (new_field (text "key") (leaf utf8) false)
        (new_field (text "value") (leaf int64) true))
      false

lookup_maps : map_field (text "lookup") lookup (text "lookup") 0 ≡ ok lookup_field
unfolding map_field map_layers within_depth primitive_type is_map_key str_eq
lookup_maps = refl

two_layers_refused :
    map_field (text "x") (optional (optional (primitive (text "i64")))) (text "x") 0
    ≡ err (nested_optional (text "x"))
unfolding map_field map_layers within_depth
two_layers_refused = refl

list_key_refused :
    map_field
      (text "m")
      (map (sequence (primitive (text "i64"))) (primitive (text "i64")))
      (text "m")
      0
    ≡ err (invalid_map_key (text "m.key"))
unfolding map_field map_layers within_depth is_map_key
list_key_refused = refl

too_deep_refused :
    map_field (text "x") (sequence (primitive (text "i64"))) (text "x") 128
    ≡ err (depth_limit (text "x[]"))
unfolding map_field map_layers within_depth
too_deep_refused = refl

map_field_iff_example :
    IsOk (map_field (text "lookup") lookup (text "lookup") 0)
    ↔ ((0 + height lookup ≤ max_depth) × IsMappable lookup false)
map_field_iff_example = map_field_iff (text "lookup") lookup (text "lookup") 0

map_field_round_example :
    (name_of lookup_field ≡ text "lookup") × (shape_of lookup_field ≡ canonical lookup)
map_field_round_example =
    map_field_round (text "lookup") lookup (text "lookup") 0 lookup_field lookup_maps

-- An id, and a list of texts, which may be null itself while its items may not.
abbrev declaration : Fields
declaration =
    field (text "id") (primitive (text "i64")) false
      (field (text "tags") (optional (sequence (primitive (text "str")))) true nil)

abbrev physical : FieldList
physical =
    more (new_field (text "id") (leaf int64) false)
      (more (new_field (text "tags") (list (new_field (text "item") (leaf utf8) false)) true) end)

abbrev validator : BatchValidator
validator = record { schema = physical; fields = root_nodes physical }

validator_prepared : new_validator (struct declaration) ≡ ok validator
unfolding new_validator schema struct_fields within_depth primitive_type str_eq field_path
validator_prepared = refl

-- Two rows; the list of row 1 is null, and its items would not pass.
masked : ℕ → Bool
masked row = row == 1

offsets : ℕ → ℕ
offsets row = 2 * row

items : ℕ → Bool
items index = ltb 1 index

batch_with : (ℕ → Bool) → RecordBatch
batch_with item_nulls = record {
  fields = physical;
  columns =
      column (values_array (λ _. false))
        (column (list_array masked offsets (values_array item_nulls)) no_columns);
  num_rows = 2;
}

passes : validate validator (batch_with items) ≡ ok tt
unfolding validate batch_with masked offsets items root_nodes new_node name str_eq
passes = refl

batch_valid_iff_example : (validate validator (batch_with items) ≡ ok tt) ↔ (
    (bare_fields physical ≡ bare_fields (batch_with items).fields)
    × ((row : ℕ) (m : Node) (b : Array) (j : ℕ)
        → row < (batch_with items).num_rows
        → InColumns validator.fields (batch_with items).columns row m b j
        → IsFine m b j))
batch_valid_iff_example = batch_valid_iff validator (batch_with items)

declared_example : field_shapes (batch_with items).fields ≡ canonical_fields declaration
declared_example = declared declaration validator (batch_with items) validator_prepared passes

-- Item 1, of the list in row 0, is null.
holed : RecordBatch
unfolding batch_with
holed = batch_with (λ index. index == 1)

item_missing : validate validator holed ≡ err (required_null (text "tags[]") 1)
unfolding validate holed batch_with masked offsets root_nodes new_node name str_eq
item_missing = refl

same_schema : bare_fields validator.schema ≡ bare_fields holed.fields
unfolding holed
same_schema = refl

validate_refused_example :
    (row : ℕ) × (row < holed.num_rows)
    × ((m : Node) × (b : Array) × (j : ℕ) × InColumns validator.fields holed.columns row m b j
        × Blames (required_null (text "tags[]") 1) m b j)
validate_refused_example =
    validate_refused validator holed (required_null (text "tags[]") 1) same_schema item_missing
