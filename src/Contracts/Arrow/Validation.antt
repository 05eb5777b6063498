-- ===== src/Contracts/Arrow/Validation.antt =====
-- crates/contracts/src/arrow/validation.rs: the prepared validator. Arrow's arrays are what the code
-- reads of them: whether a row is null, the columns of a struct, and the offsets and values of a list
-- or map. Arrow keeps the rows it hands out within these, so no read is out of range here.
use datacrate.Common.{
  ℕ, zero, suc, ◌+◌, ◌-◌, Bool, true, false, ◌&&◌, not, Text, text, ◌++◌, Result, ok, err, ◌>>=◌,
  ◌>>◌, if◌then◌else◌, ◌==◌,
}
use datacrate.Contracts.Names.{str_eq}
use datacrate.Contracts.Shape.{TypeShape}
use datacrate.Contracts.Arrow.{
  Leaf, boolean, int8, int16, int32, int64, uint8, uint16, uint32, uint64, float32, float64, utf8,
  other, DataType, leaf, list, struct_type, map_type, Field, arrow_field, FieldList, end, more,
  MappingError, schema,
}

mutual
  pub data Array : Type 0 where
    values_array : (ℕ → Bool) → Array
    struct_array : (ℕ → Bool) → Columns → Array
    list_array : (ℕ → Bool) → (ℕ → ℕ) → Array → Array
    map_array : (ℕ → Bool) → (ℕ → ℕ) → Array → Array

  pub data Columns : Type 0 where
    no_columns : Columns
    column : Array → Columns → Columns

-- `Array::is_null`
unfoldable pub is_null : Array → ℕ → Bool
is_null (values_array nulls) row = nulls row
is_null (struct_array nulls _) row = nulls row
is_null (list_array nulls _ _) row = nulls row
is_null (map_array nulls _ _) row = nulls row

pub record RecordBatch : Type 0 where
  pub fields : FieldList
  pub columns : Columns
  pub num_rows : ℕ

pub data BatchValidationError : Type 0 where
  schema_mismatch : FieldList → FieldList → BatchValidationError
  required_null : Text → ℕ → BatchValidationError
  representation : Text → BatchValidationError

-- `PartialEq` of the types that hold no field, through a number for each.
unfoldable pub leaf_code : Leaf → ℕ
leaf_code boolean = 0
leaf_code int8 = 1
leaf_code int16 = 2
leaf_code int32 = 3
leaf_code int64 = 4
leaf_code uint8 = 5
leaf_code uint16 = 6
leaf_code uint32 = 7
leaf_code uint64 = 8
leaf_code float32 = 9
leaf_code float64 = 10
leaf_code utf8 = 11
leaf_code (other n) = 12 + n

-- `sa == sb`
abbrev pub same_flag : Bool → Bool → Bool
same_flag true b = b
same_flag false b = not b

unfoldable mutual
  unfolding leaf_code

  pub field_matches : Field → Field → Bool
  field_matches (arrow_field a ta na _) (arrow_field b tb nb _) =
      str_eq a b && same_flag na nb && types_match ta tb

  -- The match on the two data types.
  pub types_match : DataType → DataType → Bool
  types_match (struct_type a) (struct_type b) = fields_match a b
  types_match (list a) (list b) = field_matches a b
  types_match (map_type a sa) (map_type b sb) = same_flag sa sb && field_matches a b
  types_match (leaf a) (leaf b) = leaf_code a == leaf_code b
  types_match _ _ = false

  -- One length, and each pair matches.
  pub fields_match : FieldList → FieldList → Bool
  fields_match end end = true
  fields_match (more a rest) (more b others) = field_matches a b && fields_match rest others
  fields_match _ _ = false

mutual
  pub data Node : Type 0 where
    node : Field → Text → Children → Node

  pub data Children : Type 0 where
    no_children : Children
    struct_children : Nodes → Children
    list_child : Node → Children
    map_child : Node → Children

  pub data Nodes : Type 0 where
    no_nodes : Nodes
    nodes : Node → Nodes → Nodes

unfoldable pub name : Field → Text
name (arrow_field n _ _ _) = n

unfoldable pub is_nullable : Field → Bool
is_nullable (arrow_field _ _ nullable _) = nullable

unfoldable mutual
  unfolding name

  -- `Node::new`
  pub new_node : Field → Text → Node
  new_node (arrow_field n data_type nullable m) path =
      node (arrow_field n data_type nullable m) path (new_children data_type path)

  pub new_children : DataType → Text → Children
  new_children (struct_type fields) path = struct_children (new_nodes fields path)
  new_children (list item) path = list_child (new_node item (path ++ text "[]"))
  new_children (map_type entries _) path = map_child (new_node entries path)
  new_children (leaf _) path = no_children

  pub new_nodes : FieldList → Text → Nodes
  new_nodes end path = no_nodes
  new_nodes (more f rest) path =
      nodes (new_node f ((path ++ text ".") ++ name f)) (new_nodes rest path)

-- `for index in from..from + count { check(index)? }`
unfoldable pub each_index :
    (ℕ → Result BatchValidationError (Unit {0})) → ℕ → ℕ → Result BatchValidationError (Unit {0})
each_index check zero from = ok tt
each_index check (suc count) from = check from >> each_index check count (from + 1)

-- `for index in offsets[row]..offsets[row + 1]`
abbrev pub each_in :
    (ℕ → Result BatchValidationError (Unit {0}))
    → (ℕ → ℕ)
    → ℕ
    → Result BatchValidationError (Unit {0})
each_in check offsets row = each_index check (offsets (row + 1) - offsets row) (offsets row)

unfoldable mutual
  unfolding is_null is_nullable each_index

  -- `Node::validate`
  pub validate_node : Node → Array → ℕ → Result BatchValidationError (Unit {0})
  validate_node (node f path children) array row =
      let inner = validate_children children path array row in
      if is_null array row
      then if is_nullable f then ok tt else err (required_null path row)
      else inner

  -- The match on the children, whose downcast fails on another kind of array.
  pub validate_children : Children → Text → Array → ℕ → Result BatchValidationError (Unit {0})
  validate_children no_children path array row = ok tt
  validate_children (struct_children ns) path (struct_array _ columns) row =
      validate_columns ns columns row
  validate_children (list_child item) path (list_array _ offsets values) row =
      each_in (validate_node item values) offsets row
  validate_children (map_child entry) path (map_array _ offsets entries) row =
      each_in (validate_node entry entries) offsets row
  validate_children _ path array row = err (representation path)

  -- `children.iter().zip(array.columns())`
  pub validate_columns : Nodes → Columns → ℕ → Result BatchValidationError (Unit {0})
  validate_columns (nodes n ns) (column array columns) row =
      validate_node n array row >> validate_columns ns columns row
  validate_columns _ _ row = ok tt

pub record BatchValidator : Type 0 where
  pub schema : FieldList
  pub fields : Nodes

-- The `map` over the schema's fields: a field's own name is its path.
unfoldable pub root_nodes : FieldList → Nodes
unfolding new_node name
root_nodes end = no_nodes
root_nodes (more f rest) = nodes (new_node f (name f)) (root_nodes rest)

-- `BatchValidator::new::<C>()`, for the shape of C.
unfoldable pub new_validator : TypeShape → Result MappingError BatchValidator
unfolding schema root_nodes
new_validator shape = do
  expected ← schema shape
  ok (record { schema = expected; fields = root_nodes expected })

-- The two loops of `BatchValidator::validate`: over the columns, and over the rows of each.
unfoldable pub validate_rows : Nodes → Columns → ℕ → Result BatchValidationError (Unit {0})
unfolding validate_node each_index
validate_rows (nodes n ns) (column array columns) num_rows =
    each_index (validate_node n array) num_rows 0 >> validate_rows ns columns num_rows
validate_rows _ _ num_rows = ok tt

unfoldable pub validate : BatchValidator → RecordBatch → Result BatchValidationError (Unit {0})
unfolding fields_match validate_rows
validate v batch =
    if not (fields_match v.schema batch.fields)
    then err (schema_mismatch v.schema batch.fields)
    else validate_rows v.fields batch.columns batch.num_rows
