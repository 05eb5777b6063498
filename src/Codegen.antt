-- ===== src/Codegen.antt =====
-- crates/schema-codegen/src/lib.rs: an Arrow schema as the source of Rust structs. The tokens that `quote!`
-- builds are the data types below; `render` stands for `syn`'s parse of them and `prettyplease`'s print.
-- A name is the list of its bytes. The names of structs are identifiers, of which `format_ident!` makes
-- an identifier without a panic.
use datacrate.Common.{
  ℕ, Bool, true, false, not, ◌&&◌, ◌||◌, ◌==◌, ◌-◌, ltb, leb, List, [], ◌∷◌, ◌++◌, Option, none,
  some, Text, text, Result, ok, err, ◌>>=◌, map_err, match_option, if◌then◌else◌,
}
use datacrate.Contracts.Arrow.{
  Leaf, boolean, int8, int16, int32, int64, uint8, uint16, uint32, uint64, float32, float64, utf8,
  other,
}
pub mod Closed
pub mod Outcome
pub mod Reference
mod Examples

-- `arrow_schema::DataType` and `Field`; types without a mapping are the leaf `other`.
mutual
  pub data DataType : Type 0 where
    leaf : Leaf → DataType
    list large_list : Field → DataType
    struct_type : FieldList → DataType

  pub data Field : Type 0 where
    arrow_field : Text → DataType → Bool → Field

  pub data FieldList : Type 0 where
    end : FieldList
    more : Field → FieldList → FieldList

pub data SchemaCodegenError (R : Type 0) : Type 0 where
  unsupported_arrow_type : Text → Leaf → SchemaCodegenError R
  invalid_field_name : Text → SchemaCodegenError R
  render_struct : Text → R → SchemaCodegenError R

-- The types, fields and structs of the generated file.
pub data RustType : Type 0 where
  named : Text → RustType
  vec : RustType → RustType

pub record RustField : Type 0 where
  pub field_ident : Text
  pub in_option : Bool
  pub field_type : RustType

pub record Item : Type 0 where
  pub derives : List Text
  pub struct_ident : Text
  pub fields : List RustField

unfoldable pub rust_primitive : Leaf → Option Text
rust_primitive boolean = some (text "bool")
rust_primitive int8 = some (text "i8")
rust_primitive int16 = some (text "i16")
rust_primitive int32 = some (text "i32")
rust_primitive int64 = some (text "i64")
rust_primitive uint8 = some (text "u8")
rust_primitive uint16 = some (text "u16")
rust_primitive uint32 = some (text "u32")
rust_primitive uint64 = some (text "u64")
rust_primitive float32 = some (text "f32")
rust_primitive float64 = some (text "f64")
rust_primitive utf8 = some (text "String")
rust_primitive (other code) = none

-- `is_ascii_lowercase`, `is_ascii_alphabetic` and `is_ascii_alphanumeric`, an underscore (95) counted too.
unfoldable pub is_lower : ℕ → Bool
is_lower c = leb 97 c && leb c 122

unfoldable pub starts_name : ℕ → Bool
unfolding is_lower
starts_name c = (leb 65 c && leb c 90) || is_lower c || (c == 95)

unfoldable pub continues_name : ℕ → Bool
unfolding starts_name
continues_name c = starts_name c || (leb 48 c && leb c 57)

-- `chars.all(...)`
unfoldable pub all_continue : Text → Bool
unfolding continues_name
all_continue [] = true
all_continue (c ∷ name) = continues_name c && all_continue name

unfoldable pub is_valid_rust_identifier : Text → Bool
unfolding starts_name all_continue
is_valid_rust_identifier [] = false
is_valid_rust_identifier (c ∷ name) = starts_name c && all_continue name

-- The parts between `_` and `-` with a capital first letter, joined; of valid identifiers only, where
-- `to_uppercase` is the ASCII one. `true` says that a part begins.
unfoldable pub pascal_from : Bool → Text → Text
unfolding is_lower
pascal_from begins [] = []
pascal_from begins (c ∷ name) =
    let separates = (c == 95) || (c == 45) in
    let rest = pascal_from separates name in
    if separates then rest else (if begins && is_lower c then c - 32 else c) ∷ rest

unfoldable pub to_pascal_case : Text → Text
unfolding pascal_from
to_pascal_case name = pascal_from true name

-- `quote! { ident: Option<T> }` or `quote! { ident: T }`.
abbrev pub render_field : Text → Bool → RustType → RustField
render_field name nullable rust_type = record {
  field_ident = name;
  in_option = nullable;
  field_type = rust_type;
}

abbrev pub nested_item : Text → List RustField → Item
nested_item name rendered = record {
  derives = text "Contract" ∷ [];
  struct_ident = name;
  fields = rendered;
}

abbrev pub root_item : Text → List RustField → Item
root_item name rendered = record {
  derives = text "Contract" ∷ text "Connector" ∷ [];
  struct_ident = name;
  fields = rendered;
}

module _ {R : Type 0} where
  -- `rust_type(other).ok_or_else(...)`
  unfoldable pub leaf_type : Text → Leaf → Result (SchemaCodegenError R) RustType
  unfolding rust_primitive
  leaf_type error_name data_type =
      match_option (rust_primitive data_type) (err (unsupported_arrow_type error_name data_type))
        λ name. ok (named name)

  -- `nested_items` is passed and returned. `rendered_fields` is the loop over the fields of a struct, with
  -- the path that an error gives for a field.
  unfoldable mutual
    unfolding leaf_type is_valid_rust_identifier to_pascal_case

    pub field_type_tokens :
        Text → Text → DataType → List Item → Result (SchemaCodegenError R) (RustType × List Item)
    field_type_tokens error_name type_hint (leaf data_type) items =
        leaf_type error_name data_type >>= λ rust_type. ok (rust_type, items)
    field_type_tokens error_name type_hint (list (arrow_field name data_type nullable)) items =
        field_type_tokens (error_name ++ text "[]") (type_hint ++ text "Item") data_type items
        >>= λ r. ok (vec r.0, r.1)
    field_type_tokens error_name type_hint (large_list (arrow_field name data_type nullable))
          items =
        field_type_tokens (error_name ++ text "[]") (type_hint ++ text "Item") data_type items
        >>= λ r. ok (vec r.0, r.1)
    field_type_tokens error_name type_hint (struct_type inner) items =
        rendered_fields (λ name. error_name ++ text "." ++ name) type_hint inner items >>= λ r.
        ok (named type_hint, r.1 ++ nested_item type_hint r.0 ∷ [])

    pub rendered_fields :
        (Text → Text)
        → Text
        → FieldList
        → List Item
        → Result (SchemaCodegenError R) (List RustField × List Item)
    rendered_fields path hint end items = ok ([], items)
    rendered_fields path hint (more (arrow_field name data_type nullable) rest) items =
        if not (is_valid_rust_identifier name)
        then err (invalid_field_name (path name))
        else (field_type_tokens (path name) (hint ++ to_pascal_case name) data_type items >>= λ r.
            rendered_fields path hint rest r.1 >>= λ s.
            ok (render_field name nullable r.0 ∷ s.0, s.1))

  -- The tokens of `struct_source`: the nested structs, innermost first, and the struct itself.
  unfoldable pub source_items : Text → FieldList → Result (SchemaCodegenError R) (List Item)
  unfolding rendered_fields
  source_items struct_name schema = rendered_fields (λ name. name) struct_name schema [] >>= λ r.
      ok (r.1 ++ root_item struct_name r.0 ∷ [])

  unfoldable pub struct_source :
      (List Item → Result R Text) → Text → FieldList → Result (SchemaCodegenError R) Text
  unfolding source_items
  struct_source render struct_name schema = source_items struct_name schema >>= λ items.
      map_err (render_struct struct_name) (render items)
