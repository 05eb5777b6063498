-- ===== src/Codegen/Closed.antt =====
-- When crates/schema-codegen generates structs, and that the generated file is complete: each struct that
-- a field's type names stands in it.
use datacrate.Common.{
  ◌≡◌, refl, ap, Bool, true, ◌||◌, List, [], ◌∷◌, ◌++◌, map, some, Text, text, any, any-append,
  arith,
}
use datacrate.Contracts.Names.{str_eq, str_eq_refl}
use datacrate.Codegen.{
  DataType, leaf, list, large_list, struct_type, arrow_field, FieldList, end, more, RustType, named,
  vec, RustField, Item, rust_primitive, is_valid_rust_identifier,
}

-- What has a Rust type: primitives with a mapping, lists of what has one, and structs whose fields have
-- identifiers for names and types of this kind.
abbrev mutual
  pub Mapped : DataType → Type 0
  Mapped (leaf data_type) = (name : Text) × (rust_primitive data_type ≡ some name)
  Mapped (list (arrow_field name data_type nullable)) = Mapped data_type
  Mapped (large_list (arrow_field name data_type nullable)) = Mapped data_type
  Mapped (struct_type inner) = AllMapped inner

  pub AllMapped : FieldList → Type 0
  AllMapped end = Unit {0}
  AllMapped (more (arrow_field name data_type nullable) rest) =
      (is_valid_rust_identifier name ≡ true) × Mapped data_type × AllMapped rest

-- The names that need no struct, and the types and fields that are defined beside some structs.
abbrev pub is_primitive_name : Text → Bool
is_primitive_name n = any (str_eq n) (
    text "bool"
    ∷ text "i8"
    ∷ text "i16"
    ∷ text "i32"
    ∷ text "i64"
    ∷ text "u8"
    ∷ text "u16"
    ∷ text "u32"
    ∷ text "u64"
    ∷ text "f32"
    ∷ text "f64"
    ∷ text "String"
    ∷ [])

abbrev pub known : List Text → RustType → Bool
known names (named n) = is_primitive_name n || any (str_eq n) names
known names (vec t) = known names t

abbrev pub Known : List Text → List RustField → Type 0
Known names [] = Unit {0}
Known names (f ∷ fields) = (known names f.field_type ≡ true) × Known names fields

abbrev pub AllKnown : List Text → List Item → Type 0
AllKnown names [] = Unit {0}
AllKnown names (i ∷ items) = Known names i.fields × AllKnown names items

abbrev pub names_of : List Item → List Text
names_of = map (λ i. i.struct_ident)

-- Every type that a field of these structs names is a primitive or one of the structs.
abbrev pub Closed : List Item → Type 0
Closed items = AllKnown (names_of items) items

-- The structs are some before and new ones after them.
abbrev pub Extends : List Item → List Item → Type 0
Extends before after = (new : List Item) × (after ≡ before ++ new)

known-more :
    (names new : List Text) (t : RustType) → known names t ≡ true → known (names ++ new) t ≡ true
known-more names new (named n) h = rw (any-append (str_eq n) names new) (ground arith)
known-more names new (vec t) h = known-more names new t h

Known-more :
    (names new : List Text) (fields : List RustField)
    → Known names fields
    → Known (names ++ new) fields
Known-more names new [] h = tt
Known-more names new (f ∷ fields) (h, hs) =
    (known-more names new f.field_type h, Known-more names new fields hs)

AllKnown-more :
    (names new : List Text) (items : List Item)
    → AllKnown names items
    → AllKnown (names ++ new) items
AllKnown-more names new [] h = tt
AllKnown-more names new (i ∷ items) (h, hs) =
    (Known-more names new i.fields h, AllKnown-more names new items hs)

AllKnown-append :
    (names : List Text) (xs ys : List Item)
    → AllKnown names xs
    → AllKnown names ys
    → AllKnown names (xs ++ ys)
AllKnown-append names [] ys h k = k
AllKnown-append names (x ∷ xs) ys (h, hs) k = (h, AllKnown-append names xs ys hs k)

names-append : (xs ys : List Item) → names_of (xs ++ ys) ≡ names_of xs ++ names_of ys
names-append [] ys = refl
names-append (x ∷ xs) ys = ap (◌∷◌ x.struct_ident) (names-append xs ys)

pub known-Extends :
    (before after : List Item) (t : RustType)
    → Extends before after
    → known (names_of before) t ≡ true
    → known (names_of after) t ≡ true
known-Extends before after t (new, e) h =
    rw (e, names-append before new) (known-more (names_of before) (names_of new) t h)

-- One more struct of known fields.
pub Closed-item :
    (items : List Item) (i : Item)
    → Closed items
    → Known (names_of items) i.fields
    → Closed (items ++ i ∷ [])
Closed-item items i h k = rw (names-append items (i ∷ [])) (
    AllKnown-append (names_of items ++ i.struct_ident ∷ []) items (i ∷ [])
      (AllKnown-more (names_of items) (i.struct_ident ∷ []) items h)
      (Known-more (names_of items) (i.struct_ident ∷ []) i.fields k, tt))

pub known-item :
    (items : List Item) (i : Item)
    → known (names_of (items ++ i ∷ [])) (named i.struct_ident) ≡ true
known-item items i =
    rw
      (
        names-append items (i ∷ []),
        any-append (str_eq i.struct_ident) (names_of items) (i.struct_ident ∷ []),
        str_eq_refl i.struct_ident,
      )
      (ground arith)
