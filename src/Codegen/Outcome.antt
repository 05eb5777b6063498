-- ===== src/Codegen/Outcome.antt =====
-- What the walk over a schema in crates/schema-codegen ends with, at every depth.
use datacrate.Common.{
  ◌≡◌, refl, sym, ap, ◌∙◌, subst, Bool, true, List, [], ◌∷◌, ◌++◌, append_assoc, append-nil, Option,
  some, Text, text, Result, ok, err, ◌>>=◌, ok_inj, Bool-cases, Option-cases, inl, inr, ◌↔◌, arith,
  match_option,
}
use datacrate.Contracts.Names.{str_eq}
use datacrate.Contracts.Arrow.{
  Leaf, boolean, int8, int16, int32, int64, uint8, uint16, uint32, uint64, float32, float64, utf8,
  other,
}
use datacrate.Codegen.{
  DataType, leaf, list, large_list, struct_type, arrow_field, FieldList, end, more,
  SchemaCodegenError, RustType, named, vec, RustField, Item, rust_primitive,
  is_valid_rust_identifier, to_pascal_case, render_field, nested_item, root_item, leaf_type,
  field_type_tokens, rendered_fields, source_items,
}
use datacrate.Codegen.Closed.{
  Mapped, AllMapped, known, Known, Closed, Extends, names_of, is_primitive_name, known-Extends,
  Closed-item, known-item,
}

-- After a success `M` holds, the structs before are kept, and they stay closed with the result; after an
-- error `M` does not hold.
abbrev pub Outcome :
    {E X : Type 0}
    → Type 0
    → (List Text → X → Type 0)
    → List Item
    → Result E (X × List Item)
    → Type 0
Outcome M P items (ok (x, out)) =
    M × Extends items out × (Closed items → Closed out × P (names_of out) x)
Outcome M P items (err e) = M → ⊥

abbrev Typed : List Text → RustType → Type 0
Typed names t = known names t ≡ true

-- A step after a walk.
chain :
    {E X Y : Type 0} (M N : Type 0) (P : List Text → X → Type 0) (Q : List Text → Y → Type 0)
    (before items : List Item) (r : Result E (X × List Item))
    (f : X × List Item → Result E (Y × List Item))
    → Outcome M P before r
    → ((x : X) (out : List Item)
        → M
        → Extends before out
        → (Closed before → Closed out × P (names_of out) x)
        → Outcome N Q items (f (x, out)))
    → (N → M)
    → Outcome N Q items (r >>= f)
chain M N P Q before items (ok (x, out)) f (m, e, c) g k = g x out m e c
chain M N P Q before items (err e) f h g k = λ n. h (k n)

some_known :
    {label : Text} (name : Text)
    → ◌≡◌ {A = Option Text} (some label) (some name)
    → is_primitive_name label ≡ true
    → is_primitive_name name ≡ true
some_known name h k = subst (λ n. is_primitive_name n ≡ true) (cc) k

rust_primitive-known :
    (data_type : Leaf) (name : Text)
    → rust_primitive data_type ≡ some name
    → is_primitive_name name ≡ true
unfolding rust_primitive str_eq
rust_primitive-known boolean name h = some_known name h refl
rust_primitive-known int8 name h = some_known name h refl
rust_primitive-known int16 name h = some_known name h refl
rust_primitive-known int32 name h = some_known name h refl
rust_primitive-known int64 name h = some_known name h refl
rust_primitive-known uint8 name h = some_known name h refl
rust_primitive-known uint16 name h = some_known name h refl
rust_primitive-known uint32 name h = some_known name h refl
rust_primitive-known uint64 name h = some_known name h refl
rust_primitive-known float32 name h = some_known name h refl
rust_primitive-known float64 name h = some_known name h refl
rust_primitive-known utf8 name h = some_known name h refl
rust_primitive-known (other code) name h = absurd (cc)

Extends-trans : (xs ys zs : List Item) → Extends xs ys → Extends ys zs → Extends xs zs
Extends-trans xs ys zs (a, e) (b, k) = (a ++ b, k ∙ ap (λ x. x ++ b) e ∙ append_assoc xs a b)

module _ (R : Type 0) where
  mutual
    unfolding field_type_tokens rendered_fields leaf_type

    type-outcome :
        (error_name type_hint : Text) (data_type : DataType) (items : List Item)
        → Outcome {E = SchemaCodegenError R}
            (Mapped data_type)
            Typed
            items
            (field_type_tokens error_name type_hint data_type items)
    type-outcome error_name type_hint (leaf data_type) items =
        elim (Option-cases (rust_primitive data_type)) [
          | inl e ↦ rw (e, match_option) (λ (n, k). absurd (cc))
          | inr (name, e) ↦
              rw (e, match_option)
                (
                  (name, refl),
                  ([], sym (append-nil items)),
                  λ closed. (closed, ground (arith, rust_primitive-known data_type name e)),
                )
        ]
    type-outcome error_name type_hint (list (arrow_field name data_type nullable)) items =
        chain (Mapped data_type) (Mapped data_type) Typed Typed items items
          (field_type_tokens (error_name ++ text "[]") (type_hint ++ text "Item") data_type items)
          (λ r. ok (vec r.0, r.1))
          (type-outcome (error_name ++ text "[]") (type_hint ++ text "Item") data_type items)
          (λ x out m e c. (m, e, c)) (λ n. n)
    type-outcome error_name type_hint (large_list (arrow_field name data_type nullable)) items =
        chain (Mapped data_type) (Mapped data_type) Typed Typed items items
          (field_type_tokens (error_name ++ text "[]") (type_hint ++ text "Item") data_type items)
          (λ r. ok (vec r.0, r.1))
          (type-outcome (error_name ++ text "[]") (type_hint ++ text "Item") data_type items)
          (λ x out m e c. (m, e, c)) (λ n. n)
    type-outcome error_name type_hint (struct_type inner) items =
        chain (AllMapped inner) (AllMapped inner) Known Typed items items
          (rendered_fields (λ name. error_name ++ text "." ++ name) type_hint inner items)
          (λ r. ok (named type_hint, r.1 ++ nested_item type_hint r.0 ∷ []))
          (fields-outcome (λ name. error_name ++ text "." ++ name) type_hint inner items)
          (λ x out m e c. (
            m,
            Extends-trans items out (out ++ nested_item type_hint x ∷ []) e
                (nested_item type_hint x ∷ [], refl),
            λ closed. (
              Closed-item out (nested_item type_hint x) (c closed).0 (c closed).1,
              known-item out (nested_item type_hint x),
            ),
          ))
          (λ n. n)

    pub fields-outcome :
        (path : Text → Text) (hint : Text) (fields : FieldList) (items : List Item)
        → Outcome {E = SchemaCodegenError R}
            (AllMapped fields)
            Known
            items
            (rendered_fields path hint fields items)
    fields-outcome path hint end items = (tt, ([], sym (append-nil items)), λ closed. (closed, tt))
    fields-outcome path hint (more (arrow_field name data_type nullable) rest) items =
        elim (Bool-cases (is_valid_rust_identifier name)) [
          | inl e ↦ rw (e) (
              chain (Mapped data_type)
                (◌≡◌ {A = Bool} true true × Mapped data_type × AllMapped rest) Typed Known items
                items (field_type_tokens (path name) (hint ++ to_pascal_case name) data_type items)
                (λ r. rendered_fields path hint rest r.1 >>= λ s.
                  ok (render_field name nullable r.0 ∷ s.0, s.1))
                (type-outcome (path name) (hint ++ to_pascal_case name) data_type items)
                (λ x out m before c.
                  chain (AllMapped rest)
                    (◌≡◌ {A = Bool} true true × Mapped data_type × AllMapped rest) Known Known out
                    items (rendered_fields path hint rest out)
                    (λ s. ok (render_field name nullable x ∷ s.0, s.1))
                    (fields-outcome path hint rest out)
                    (λ y after ms later d. (
                      (refl, m, ms),
                      Extends-trans items out after before later,
                      λ closed.
                          let known_all = d (c closed).0 in
                          (
                            known_all.0,
                            (known-Extends out after x later (c closed).1, known_all.1),
                          ),
                    ))
                    (λ n. n.2))
                (λ n. n.1))
          | inr e ↦ rw (e) (λ n. absurd (cc))
        ]

  source-outcome :
      (struct_name : Text) (schema : FieldList)
      → (r : Result (SchemaCodegenError R) (List RustField × List Item))
      → Outcome {E = SchemaCodegenError R} (AllMapped schema) Known [] r
      → (items : List Item)
      → ◌≡◌ {A = Result (SchemaCodegenError R) (List Item)}
          (r >>= λ r. ok (r.1 ++ root_item struct_name r.0 ∷ []))
          (ok items)
      → AllMapped schema × Closed items
  source-outcome struct_name schema (err e) h items k = absurd (cc)
  source-outcome struct_name schema (ok (x, out)) (m, e, c) items k =
      (m, subst Closed (ok_inj k) (Closed-item out (root_item struct_name x) (c tt).0 (c tt).1))

  generated :
      (struct_name : Text) (schema : FieldList)
      → (r : Result (SchemaCodegenError R) (List RustField × List Item))
      → Outcome {E = SchemaCodegenError R} (AllMapped schema) Known [] r
      → AllMapped schema
      → (items : List Item) × ◌≡◌ {A = Result (SchemaCodegenError R) (List Item)}
          (r >>= λ r. ok (r.1 ++ root_item struct_name r.0 ∷ []))
          (ok items)
  generated struct_name schema (err e) h m = absurd (h m)
  generated struct_name schema (ok (x, out)) h m = (out ++ root_item struct_name x ∷ [], refl)

  -- The structs of a schema can be built exactly where every field, at any depth, has an identifier for its
  -- name and a type with a mapping.
  pub source_items_iff :
      (struct_name : Text) (schema : FieldList)
      → ((items : List Item) × (source_items {R = R} struct_name schema ≡ ok items))
        ↔ AllMapped schema
  unfolding source_items
  source_items_iff struct_name schema = (
    λ (items, e).
        (source-outcome struct_name schema (rendered_fields (λ name. name) struct_name schema [])
          (fields-outcome (λ name. name) struct_name schema []) items e).0,
    generated struct_name schema (rendered_fields (λ name. name) struct_name schema [])
        (fields-outcome (λ name. name) struct_name schema []),
  )

  -- The structs that are built are complete.
  pub source_items-Closed :
      (struct_name : Text) (schema : FieldList) (items : List Item)
      → source_items {R = R} struct_name schema ≡ ok items
      → Closed items
  unfolding source_items
  source_items-Closed struct_name schema items e =
      (source-outcome struct_name schema (rendered_fields (λ name. name) struct_name schema [])
        (fields-outcome (λ name. name) struct_name schema []) items e).1
