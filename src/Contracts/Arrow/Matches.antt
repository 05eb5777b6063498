-- ===== src/Contracts/Arrow/Matches.antt =====
-- The schema comparison of crates/contracts/src/arrow/validation.rs, against equality.
use datacrate.Common.{
  ℕ, Bool, true, false, ltb, if◌then◌else◌, List, [], ◌∷◌, get_or, ◌-◌, ◌≡◌, ◌↔◌, refl, sym, ap,
  ◌∙◌, arith, ◌&&◌, ==_iff,
}
use datacrate.Contracts.Names.{str_eq_iff}
use datacrate.Contracts.Arrow.{
  Leaf, boolean, int8, int16, int32, int64, uint8, uint16, uint32, uint64, float32, float64, utf8,
  other, DataType, leaf, list, struct_type, map_type, Field, arrow_field, FieldList, end, more,
}
use datacrate.Contracts.Arrow.Validation.{
  leaf_code, same_flag, field_matches, types_match, fields_match,
}

-- A field, a type or a list of fields without any metadata.
abbrev mutual
  pub bare : Field → Field
  bare (arrow_field name data_type nullable _) = arrow_field name (bare_type data_type) nullable []

  pub bare_type : DataType → DataType
  bare_type (leaf l) = leaf l
  bare_type (list item) = list (bare item)
  bare_type (struct_type fields) = struct_type (bare_fields fields)
  bare_type (map_type entries sorted) = map_type (bare entries) sorted

  pub bare_fields : FieldList → FieldList
  bare_fields end = end
  bare_fields (more f rest) = more (bare f) (bare_fields rest)

abbrev known : List Leaf
known =
    boolean ∷ int8 ∷ int16 ∷ int32 ∷ int64 ∷ uint8 ∷ uint16 ∷ uint32 ∷ uint64 ∷ float32 ∷ float64
    ∷ utf8 ∷ []

leaf_of : ℕ → Leaf
leaf_of n = if ltb n 12 then get_or known n (other 0) else other (n - 12)

leaf_of-code : (l : Leaf) → leaf_of (leaf_code l) ≡ l
unfolding leaf_of leaf_code
leaf_of-code (other n) = ground arith
leaf_of-code _ = refl

leaf_code_inj : (a b : Leaf) → leaf_code a ≡ leaf_code b → a ≡ b
leaf_code_inj a b h = sym (leaf_of-code a) ∙ ap leaf_of h ∙ leaf_of-code b

true_of_and : (a b : Bool) → a && b ≡ true → (a ≡ true) × (b ≡ true)
true_of_and a b h = ground arith

same_flag_eq : (a b : Bool) → same_flag a b ≡ true → a ≡ b
same_flag_eq true true h = refl
same_flag_eq true false h = cc
same_flag_eq false true h = cc
same_flag_eq false false h = refl

mutual
  unfolding field_matches

  field_sound : (a b : Field) → field_matches a b ≡ true → bare a ≡ bare b
  field_sound (arrow_field a ta na _) (arrow_field b tb nb _) h =
      ground (arith, str_eq_iff a b, same_flag_eq na nb, type_sound ta tb)

  type_sound : (a b : DataType) → types_match a b ≡ true → bare_type a ≡ bare_type b
  type_sound (struct_type a) (struct_type b) h = ap struct_type (fields_sound a b h)
  type_sound (list a) (list b) h = ap list (field_sound a b h)
  type_sound (map_type a sa) (map_type b sb) h = ground (arith, same_flag_eq sa sb, field_sound a b)
  type_sound (leaf a) (leaf b) h =
      ap leaf (leaf_code_inj a b ((==_iff (leaf_code a) (leaf_code b)).0 h))
  type_sound a b h = absurd (cc)

  fields_sound : (a b : FieldList) → fields_match a b ≡ true → bare_fields a ≡ bare_fields b
  fields_sound end end h = refl
  fields_sound (more a rest) (more b others) h =
      ground (arith, field_sound a b, fields_sound rest others)
  fields_sound a b h = absurd (cc)

same_flag_of : (a b : Bool) → a ≡ b → same_flag a b ≡ true
same_flag_of true true h = refl
same_flag_of true false h = cc
same_flag_of false true h = cc
same_flag_of false false h = refl

mutual
  unfolding field_matches

  field_refl : (a b : Field) → bare a ≡ bare b → field_matches a b ≡ true
  field_refl (arrow_field a ta na ma) (arrow_field b tb nb mb) h =
      ground (arith, (str_eq_iff a b).1 (cc), same_flag_of na nb (cc), type_refl ta tb (cc))

  type_refl : (a b : DataType) → bare_type a ≡ bare_type b → types_match a b ≡ true
  type_refl (struct_type a) (struct_type b) h = fields_refl a b (cc)
  type_refl (list a) (list b) h = field_refl a b (cc)
  type_refl (map_type a sa) (map_type b sb) h =
      ground (arith, same_flag_of sa sb (cc), field_refl a b (cc))
  type_refl (leaf a) (leaf b) h = (==_iff (leaf_code a) (leaf_code b)).1 (cc)
  type_refl a b h = absurd (cc)

  fields_refl : (a b : FieldList) → bare_fields a ≡ bare_fields b → fields_match a b ≡ true
  fields_refl end end h = refl
  fields_refl (more a rest) (more b others) h =
      ground (arith, field_refl a b (cc), fields_refl rest others (cc))
  fields_refl a b h = absurd (cc)

-- The schema comparison holds exactly of field lists that are equal, nested fields included, once all metadata
-- is left out: names, order, types, sortedness of maps and nullability count.
pub fields_match_iff :
    (expected found : FieldList)
    → (fields_match expected found ≡ true) ↔ (bare_fields expected ≡ bare_fields found)
fields_match_iff expected found = (fields_sound expected found, fields_refl expected found)
