-- ===== src/Contracts/Shape.antt =====
-- crates/contracts/src/lib.rs: `TypeShape`, `FieldShape`, `SchemaPolicy`, `Mode`.
use datacrate.Common.{Bool, true, false, Text, text}

-- `&'static [FieldShape]` is the second type of the block: a field's name, shape and `has_default`.
mutual
  pub data TypeShape : Type 0 where
    primitive : Text → TypeShape
    optional : TypeShape → TypeShape
    sequence : TypeShape → TypeShape
    map : TypeShape → TypeShape → TypeShape
    struct : Fields → TypeShape

  pub data Fields : Type 0 where
    nil : Fields
    field : Text → TypeShape → Bool → Fields → Fields

-- One field, as `find_field_mode` returns it.
pub record FieldShape : Type 0 where
  pub name : Text
  pub shape : TypeShape
  pub has_default : Bool

pub data SchemaPolicy : Type 0 where
  exact exact_unordered_ci exact_ordered exact_ordered_ci exact_by_position : SchemaPolicy
  backward forward full : SchemaPolicy

pub record Mode : Type 0 where
  pub ci : Bool
  pub ordered : Bool
  pub by_pos : Bool

unfoldable pub policy_mode : SchemaPolicy → Mode
policy_mode exact = record { ci = true; ordered = false; by_pos = false }
policy_mode exact_unordered_ci = record { ci = true; ordered = false; by_pos = false }
policy_mode exact_ordered = record { ci = false; ordered = true; by_pos = false }
policy_mode exact_ordered_ci = record { ci = true; ordered = true; by_pos = false }
policy_mode exact_by_position = record { ci = false; ordered = false; by_pos = true }
policy_mode backward = record { ci = false; ordered = false; by_pos = false }
policy_mode forward = record { ci = false; ordered = false; by_pos = false }
policy_mode full = record { ci = false; ordered = false; by_pos = false }

unfoldable pub shape_label : TypeShape → Text
shape_label (primitive name) = name
shape_label (optional _) = text "Optional"
shape_label (sequence _) = text "Sequence"
shape_label (map _ _) = text "Map"
shape_label (struct _) = text "Struct"

unfoldable pub is_optional : TypeShape → Bool
is_optional (optional _) = true
is_optional _ = false
