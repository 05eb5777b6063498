-- ===== src/Contracts/Arrow.antt =====
-- crates/contracts/src/arrow.rs: a declared shape as an Arrow field. `arrow_schema::DataType` is the
-- type `DataType` here, with its childless cases under `leaf`; those the mapping never builds are
-- `other`. `PathBuf`-like paths are dotted texts.
use datacrate.Common.{
  ℕ, ◌+◌, Bool, true, false, not, ◌||◌, List, [], ◌∷◌, ◌++◌, Text, text, Result, ok, err, ◌>>=◌,
  ltb, if◌then◌else◌, any, arith, ◌≡◌, refl, ap, sym, ◌∙◌, ◌==◌, ==_iff, ◌↔◌,
}
use datacrate.Contracts.Names.{str_eq}
use datacrate.Contracts.Shape.{
  TypeShape, primitive, optional, sequence, map, struct, Fields, nil, field,
}
pub mod Supported
pub mod RoundTrip
pub mod Validation
pub mod Matches
pub mod Active
pub mod Batches
pub mod Declared
pub mod Exact
mod Examples

pub data Leaf : Type 0 where
  boolean int8 int16 int32 int64 uint8 uint16 uint32 uint64 float32 float64 utf8 : Leaf
  other : ℕ → Leaf

-- The key-value metadata of a field, which `Field::new` leaves empty.
abbrev pub Metadata : Type 0
Metadata = List (Text × Text)

mutual
  pub data DataType : Type 0 where
    leaf : Leaf → DataType
    list : Field → DataType
    struct_type : FieldList → DataType
    map_type : Field → Bool → DataType

  pub data Field : Type 0 where
    arrow_field : Text → DataType → Bool → Metadata → Field

  pub data FieldList : Type 0 where
    end : FieldList
    more : Field → FieldList → FieldList

pub data MappingError : Type 0 where
  root_not_struct : MappingError
  unsupported_primitive : Text → Text → MappingError
  nested_optional : Text → MappingError
  invalid_map_key : Text → MappingError
  duplicate_field : Text → MappingError
  depth_limit : Text → MappingError

-- `Field::new`
abbrev pub new_field : Text → DataType → Bool → Field
new_field name data_type nullable = arrow_field name data_type nullable []

-- The arms of the match on a primitive's label.
unfoldable pub primitive_type : Text → Text → Result MappingError DataType
primitive_type label path =
    if str_eq label (text "bool")
    then ok (leaf boolean)
    else if str_eq label (text "i8")
    then ok (leaf int8)
    else if str_eq label (text "i16")
    then ok (leaf int16)
    else if str_eq label (text "i32")
    then ok (leaf int32)
    else if str_eq label (text "i64")
    then ok (leaf int64)
    else if str_eq label (text "u8")
    then ok (leaf uint8)
    else if str_eq label (text "u16")
    then ok (leaf uint16)
    else if str_eq label (text "u32")
    then ok (leaf uint32)
    else if str_eq label (text "u64")
    then ok (leaf uint64)
    else if str_eq label (text "f32")
    then ok (leaf float32)
    else if str_eq label (text "f64")
    then ok (leaf float64)
    else if str_eq label (text "str") || str_eq label (text "String")
    then ok (leaf utf8)
    else err (unsupported_primitive path label)

abbrev pub map_key_labels : List Text
map_key_labels =
    text "bool"
    ∷ text "String"
    ∷ text "i8"
    ∷ text "i16"
    ∷ text "i32"
    ∷ text "i64"
    ∷ text "i128"
    ∷ text "u8"
    ∷ text "u16"
    ∷ text "u32"
    ∷ text "u64"
    ∷ text "u128"
    ∷ text "isize"
    ∷ text "usize"
    ∷ []

unfoldable pub is_map_key : TypeShape → Bool
is_map_key (primitive label) = any (str_eq label) map_key_labels
is_map_key _ = false

abbrev pub max_depth : ℕ
max_depth = 128

-- The path of a struct's field.
unfoldable pub field_path : Text → Text → Text
field_path [] name = name
field_path (b ∷ path) name = ((b ∷ path) ++ text ".") ++ name

-- `DataType::Map` over its entries.
abbrev pub entries_type : Field → Field → DataType
entries_type key value =
    map_type (new_field (text "entries") (struct_type (more key (more value end))) false) false

-- The test at the head of `map_field`.
unfoldable pub within_depth :
    {A : Type 0} → Text → ℕ → Result MappingError A → Result MappingError A
within_depth path depth rest = if ltb max_depth depth then err (depth_limit path) else rest

unfoldable mutual
  unfolding primitive_type is_map_key field_path within_depth

  -- `map_field` behind its depth test. `nullable` is what the match on the outer layer gives: it is
  -- false first, and true behind an optional layer, where a second one is refused.
  pub map_layers : TypeShape → Text → Bool → Text → ℕ → Result MappingError Field
  map_layers (optional inner) name false path depth = map_layers inner name true path depth
  map_layers (optional _) name true path depth = err (nested_optional path)
  map_layers (primitive label) name nullable path depth = do
    ok (new_field name (← primitive_type label path) nullable)
  map_layers (sequence item) name nullable path depth =
      let inner = path ++ text "[]" in
      do
        f ← within_depth inner (depth + 1) (map_layers item (text "item") false inner (depth + 1))
        ok (new_field name (list f) nullable)
  map_layers (struct fields) name nullable path depth = do
    ok (new_field name (struct_type (← struct_fields fields [] path depth)) nullable)
  map_layers (map key value) name nullable path depth =
      let at_key = path ++ text ".key" in
      let at_value = path ++ text ".value" in
      let keys =
        within_depth at_key (depth + 1) (map_layers key (text "key") false at_key (depth + 1)) in
      let values =
        within_depth at_value (depth + 1)
          (map_layers value (text "value") false at_value (depth + 1)) in
      if not (is_map_key key)
      then err (invalid_map_key at_key)
      else do k ← keys; v ← values; ok (new_field name (entries_type k v) nullable)

  -- The loop over the fields; `prior` holds the names before this one.
  pub struct_fields : Fields → List Text → Text → ℕ → Result MappingError FieldList
  struct_fields nil prior path depth = ok end
  struct_fields (field name shape _ rest) prior path depth =
      let inner = field_path path name in
      let this = within_depth inner (depth + 1) (map_layers shape name false inner (depth + 1)) in
      let others = struct_fields rest (name ∷ prior) path depth in
      if any (λ earlier. str_eq earlier name) prior
      then err (duplicate_field inner)
      else do mapped ← this; ok (more mapped (← others))

unfoldable pub map_field : Text → TypeShape → Text → ℕ → Result MappingError Field
unfolding map_layers within_depth
map_field name shape path depth = within_depth path depth (map_layers shape name false path depth)

-- `schema::<T>()`, for the shape of T.
unfoldable pub schema : TypeShape → Result MappingError FieldList
unfolding struct_fields
schema (struct fields) = struct_fields fields [] [] 0
schema _ = err root_not_struct

-- The public `field`, whose path is the field's name.
unfoldable pub field_of : Text → TypeShape → Result MappingError Field
unfolding map_field
field_of name shape = map_field name shape name 0
