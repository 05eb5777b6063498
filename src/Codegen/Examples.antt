-- ===== src/Codegen/Examples.antt =====
-- crates/schema-codegen/src/lib.rs on a schema with a list of structs.
use datacrate.Common.{◌≡◌, refl, ◌↔◌, true, false, List, [], ◌∷◌, ◌++◌, Text, text, Result, ok, err}
use datacrate.Contracts.Arrow.{int64, utf8, other}
use datacrate.Codegen.{
  leaf, list, struct_type, arrow_field, FieldList, end, more, named, vec, Item, render_field,
  nested_item, root_item, unsupported_arrow_type, is_valid_rust_identifier, to_pascal_case,
  pascal_from, field_type_tokens, source_items, struct_source, is_lower, starts_name,
  continues_name, all_continue, rust_primitive, leaf_type,
}
use datacrate.Codegen.Closed.{AllMapped, Closed}
use datacrate.Codegen.Reference.{file_of, struct_source_iff}

abbrev order_schema : FieldList
order_schema = more (arrow_field (text "order_id") (leaf int64) false) (
    more
      (arrow_field (text "line_items")
        (list (
          arrow_field (text "item")
            (struct_type (more (arrow_field (text "sku") (leaf utf8) false) end)) true))
        true)
      end)

abbrev line_item : Item
line_item =
    nested_item (text "OrderLineItemsItem")
      (render_field (text "sku") false (named (text "String")) ∷ [])

abbrev order_items : List Item
order_items =
    line_item
    ∷ root_item (text "Order") (
        render_field (text "order_id") false (named (text "i64"))
        ∷ render_field (text "line_items") true (vec (named (text "OrderLineItemsItem")))
        ∷ [])
    ∷ []

order_built : source_items {R = Unit {0}} (text "Order") order_schema ≡ ok order_items
unfolding source_items field_type_tokens is_valid_rust_identifier to_pascal_case pascal_from
    leaf_type rust_primitive is_lower starts_name continues_name all_continue
order_built = refl

unmapped_refused :
    source_items {R = Unit {0}}
      (text "T")
      (more (arrow_field (text "a") (leaf (other 3)) false) end)
    ≡ err (unsupported_arrow_type (text "a") (other 3))
unfolding source_items field_type_tokens is_valid_rust_identifier to_pascal_case pascal_from
    leaf_type rust_primitive is_lower starts_name continues_name all_continue
unmapped_refused = refl

-- A keyword passes the test of names.
keyword_passes : is_valid_rust_identifier (text "type") ≡ true
unfolding is_valid_rust_identifier is_lower starts_name continues_name all_continue
keyword_passes = refl

-- The names of the structs, one after another.
abbrev struct_names : List Item → Text
struct_names [] = []
struct_names (i ∷ items) = i.struct_ident ++ struct_names items

abbrev rendered : List Item → Result (Unit {0}) Text
rendered items = ok (struct_names items)

order_mapped : AllMapped order_schema
unfolding is_valid_rust_identifier is_lower starts_name continues_name all_continue rust_primitive
order_mapped = (refl, (text "i64", refl), (refl, (refl, (text "String", refl), tt), tt))

struct_source_iff_example :
    ((struct_source rendered (text "Order") order_schema ≡ ok (text "OrderLineItemsItemOrder")) ↔ (
      AllMapped order_schema
      × (rendered (file_of (text "Order") order_schema) ≡ ok (text "OrderLineItemsItemOrder"))))
    × (AllMapped order_schema → Closed (file_of (text "Order") order_schema))
struct_source_iff_example =
    struct_source_iff (Unit {0}) rendered (text "Order") order_schema
      (text "OrderLineItemsItemOrder")
