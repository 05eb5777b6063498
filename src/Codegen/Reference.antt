-- ===== src/Codegen/Reference.antt =====
-- The structs that crates/schema-codegen generates for a schema, described without its walk: by the types
-- of the fields and the structs they need, as total functions on any schema.
use datacrate.Common.{
  ◌≡◌, refl, sym, ap, ◌∙◌, ◌↔◌, List, [], ◌∷◌, ◌++◌, append_assoc, append-nil, Text, text, Result,
  ok, err, map_err, then-ok, ok_inj, match_option, subst,
}
use datacrate.Codegen.{
  DataType, leaf, list, large_list, struct_type, arrow_field, FieldList, end, more,
  SchemaCodegenError, render_struct, RustType, named, vec, RustField, Item, rust_primitive,
  to_pascal_case, render_field, nested_item, root_item, leaf_type, field_type_tokens,
  rendered_fields, source_items, struct_source,
}
use datacrate.Codegen.Closed.{Mapped, AllMapped, Closed}
use datacrate.Codegen.Outcome.{source_items_iff, source_items-Closed}

-- The Rust type of a field, a struct's being named by the hint; only mapped leaves matter.
abbrev pub type_of : Text → DataType → RustType
type_of hint (leaf data_type) = named (match_option (rust_primitive data_type) [] (λ name. name))
type_of hint (list (arrow_field name data_type nullable)) =
    vec (type_of (hint ++ text "Item") data_type)
type_of hint (large_list (arrow_field name data_type nullable)) =
    vec (type_of (hint ++ text "Item") data_type)
type_of hint (struct_type inner) = named hint

-- A hint for a field extends that of its struct.
abbrev pub fields_of : Text → FieldList → List RustField
fields_of hint end = []
fields_of hint (more (arrow_field name data_type nullable) rest) =
    render_field name nullable (type_of (hint ++ to_pascal_case name) data_type)
    ∷ fields_of hint rest

-- The structs that a type or the fields of a struct need, each after those it needs itself.
abbrev mutual
  pub structs_of : Text → DataType → List Item
  structs_of hint (leaf data_type) = []
  structs_of hint (list (arrow_field name data_type nullable)) =
      structs_of (hint ++ text "Item") data_type
  structs_of hint (large_list (arrow_field name data_type nullable)) =
      structs_of (hint ++ text "Item") data_type
  structs_of hint (struct_type inner) =
      inner_structs hint inner ++ nested_item hint (fields_of hint inner) ∷ []

  pub inner_structs : Text → FieldList → List Item
  inner_structs hint end = []
  inner_structs hint (more (arrow_field name data_type nullable) rest) =
      structs_of (hint ++ to_pascal_case name) data_type ++ inner_structs hint rest

-- The whole file of a schema.
abbrev pub file_of : Text → FieldList → List Item
file_of struct_name schema =
    inner_structs struct_name schema ++ root_item struct_name (fields_of struct_name schema) ∷ []

module _ (R : Type 0) where
  -- On what has a mapping, the walk gives the reference, after the structs that it was passed.
  mutual
    unfolding field_type_tokens rendered_fields leaf_type

    type_reference :
        (error_name type_hint : Text) (data_type : DataType) (items : List Item)
        → Mapped data_type
        → field_type_tokens {R = R} error_name type_hint data_type items
          ≡ ok (type_of type_hint data_type, items ++ structs_of type_hint data_type)
    type_reference error_name type_hint (leaf data_type) items (name, e) =
        rw (e, match_option, append-nil items) refl
    type_reference error_name type_hint (list (arrow_field name data_type nullable)) items m =
        rw (type_reference (error_name ++ text "[]") (type_hint ++ text "Item") data_type items m)
          refl
    type_reference error_name type_hint (large_list (arrow_field name data_type nullable)) items m =
        rw (type_reference (error_name ++ text "[]") (type_hint ++ text "Item") data_type items m)
          refl
    type_reference error_name type_hint (struct_type inner) items m =
        rw (fields_reference (λ name. error_name ++ text "." ++ name) type_hint inner items m) (
          ap (λ x. ok (named type_hint, x))
            (append_assoc items (inner_structs type_hint inner)
              (nested_item type_hint (fields_of type_hint inner) ∷ [])))

    fields_reference :
        (path : Text → Text) (hint : Text) (fields : FieldList) (items : List Item)
        → AllMapped fields
        → rendered_fields {R = R} path hint fields items
          ≡ ok (fields_of hint fields, items ++ inner_structs hint fields)
    fields_reference path hint end items m = rw (append-nil items) refl
    fields_reference path hint (more (arrow_field name data_type nullable) rest) items
          (valid, m, ms) =
        rw
          (
            valid,
            type_reference (path name) (hint ++ to_pascal_case name) data_type items m,
            fields_reference path hint rest
                (items ++ structs_of (hint ++ to_pascal_case name) data_type) ms,
          )
          (ap (λ x. ok (fields_of hint (more (arrow_field name data_type nullable) rest), x))
            (append_assoc items (structs_of (hint ++ to_pascal_case name) data_type)
              (inner_structs hint rest)))

  source_reference :
      (struct_name : Text) (schema : FieldList)
      → AllMapped schema
      → source_items {R = R} struct_name schema ≡ ok (file_of struct_name schema)
  unfolding source_items
  source_reference struct_name schema m =
      rw (fields_reference (λ name. name) struct_name schema [] m) refl

  map_err-ok :
      {E A : Type 0} (f : E → SchemaCodegenError R) (r : Result E A) (a : A)
      → ◌≡◌ {A = Result (SchemaCodegenError R) A} (map_err f r) (ok a)
      → ◌≡◌ {A = Result E A} r (ok a)
  map_err-ok f (ok b) a h = cc
  map_err-ok f (err e) a h = absurd (cc)

  -- A text is returned exactly where every field, at any depth, has an identifier for its name and a type
  -- with a mapping, and the structs of the schema, as they are described without the walk, render to this
  -- text. Each type that one of their fields then names is a primitive or one of these structs.
  pub struct_source_iff :
      (render : List Item → Result R Text) (struct_name : Text) (schema : FieldList) (out : Text)
      → ((struct_source render struct_name schema ≡ ok out)
          ↔ (AllMapped schema × (render (file_of struct_name schema) ≡ ok out)))
        × (AllMapped schema → Closed (file_of struct_name schema))
  unfolding struct_source
  struct_source_iff render struct_name schema out = (
    (
      (λ h.
          let (items, e, k) =
            then-ok (source_items {R = R} struct_name schema)
              (λ items. map_err (render_struct struct_name) (render items)) h in
          let m = (source_items_iff R struct_name schema).0 (items, e) in
          let same = ok_inj (sym e ∙ source_reference struct_name schema m) in
          (
            m,
            subst (λ x. render x ≡ ok out) same
                (map_err-ok (render_struct struct_name) (render items) out k),
          )),
      λ (m, k). rw (source_reference struct_name schema m, k) refl,
    ),
    λ m.
        source_items-Closed R struct_name schema (file_of struct_name schema)
          (source_reference struct_name schema m),
  )
