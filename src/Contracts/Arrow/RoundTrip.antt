-- ===== src/Contracts/Arrow/RoundTrip.antt =====
-- Reading a declared shape back from the field that crates/contracts/src/arrow.rs maps it to.
use datacrate.Common.{
  ok_inj, err_ok, then-ok, ℕ, ◌+◌, Bool, true, false, List, [], ◌∷◌, ◌++◌, Text, text, Result, ok,
  err, if◌then◌else◌, any, arith, ◌||◌, ◌≡◌, refl, inl, inr, Bool-cases, ap,
}
use datacrate.Contracts.Names.{str_eq, str_eq_iff}
use datacrate.Contracts.Shape.{
  TypeShape, primitive, optional, sequence, map, struct, Fields, nil, field,
}
use datacrate.Contracts.Arrow.{
  Leaf, boolean, int8, int16, int32, int64, uint8, uint16, uint32, uint64, float32, float64, utf8,
  other, DataType, leaf, list, struct_type, map_type, Field, arrow_field, FieldList, end, more,
  MappingError, unsupported_primitive, within_depth, map_layers, struct_fields, map_field,
  primitive_type, is_map_key, field_path,
}

-- The label of a leaf type; both text labels are read back as "String".
abbrev label_of : Leaf → Text
label_of boolean = text "bool"
label_of int8 = text "i8"
label_of int16 = text "i16"
label_of int32 = text "i32"
label_of int64 = text "i64"
label_of uint8 = text "u8"
label_of uint16 = text "u16"
label_of uint32 = text "u32"
label_of uint64 = text "u64"
label_of float32 = text "f32"
label_of float64 = text "f64"
label_of utf8 = text "String"
label_of (other _) = []

abbrev pub layer : Bool → TypeShape → TypeShape
layer nullable shape = if nullable then optional shape else shape

abbrev pub name_of : Field → Text
name_of (arrow_field name _ _ _) = name

-- The shape a field stands for. A map's entries are a struct of a key and a value.
abbrev mutual
  pub shape_of : Field → TypeShape
  shape_of (arrow_field _ data_type nullable _) = layer nullable (type_shape data_type)

  pub type_shape : DataType → TypeShape
  type_shape (leaf l) = primitive (label_of l)
  type_shape (list item) = sequence (shape_of item)
  type_shape (struct_type fields) = struct (field_shapes fields)
  type_shape (map_type (arrow_field _ (struct_type (more key (more value end))) _ _) _) =
      map (shape_of key) (shape_of value)
  type_shape (map_type entries _) = sequence (shape_of entries)

  pub field_shapes : FieldList → Fields
  field_shapes end = nil
  field_shapes (more f rest) = field (name_of f) (shape_of f) false (field_shapes rest)

-- What the mapping forgets: default marks, and which of the two text labels was declared.
abbrev canonical_label : Text → Text
canonical_label label = if str_eq label (text "str") then text "String" else label

abbrev mutual
  pub canonical : TypeShape → TypeShape
  canonical (primitive label) = primitive (canonical_label label)
  canonical (optional inner) = optional (canonical inner)
  canonical (sequence item) = sequence (canonical item)
  canonical (map key value) = map (canonical key) (canonical value)
  canonical (struct fields) = struct (canonical_fields fields)

  pub canonical_fields : Fields → Fields
  canonical_fields nil = nil
  canonical_fields (field name shape _ rest) =
      field name (canonical shape) false (canonical_fields rest)

within-ok :
    {A : Type 0} (path : Text) (d : ℕ) (r : Result MappingError A) {a : A}
    → within_depth path d r ≡ ok a
    → r ≡ ok a
unfolding within_depth
within-ok path d r h = ground arith

abbrev Reads : Text → DataType → Type 0
Reads label t = type_shape t ≡ primitive (canonical_label label)

module _ (label path : Text) {t : DataType} where
  -- One arm of the match: its label reads back, or the remaining arms decide.
  arm :
      (x : Text) (l : Leaf) {rest : Result MappingError DataType}
      → label_of l ≡ canonical_label x
      → (rest ≡ ok t → Reads label t)
      → (if str_eq label x then ok (leaf l) else rest) ≡ ok t
      → Reads label t
  arm x l {rest} same next h = elim (Bool-cases (str_eq label x)) [
    | inl e ↦
        let is_leaf : leaf l ≡ t = ok_inj (rw (e, if◌then◌else◌) at h) in
        rw (← is_leaf, (str_eq_iff label x).0 e) (ap primitive same)
    | inr e ↦ next (rw (e, if◌then◌else◌) at h)
  ]

  last_arm :
      (if str_eq label (text "str") || str_eq label (text "String")
          then ok (leaf utf8)
          else err (unsupported_primitive path label))
        ≡ ok t
      → Reads label t
  last_arm h = ground (arith, str_eq_iff label (text "String"))

  primitive_type-shape : primitive_type label path ≡ ok t → Reads label t
  unfolding primitive_type str_eq
  primitive_type-shape = arm (text "bool") boolean refl (
      arm (text "i8") int8 refl (
        arm (text "i16") int16 refl (
          arm (text "i32") int32 refl (
            arm (text "i64") int64 refl (
              arm (text "u8") uint8 refl (
                arm (text "u16") uint16 refl (
                  arm (text "u32") uint32 refl (
                    arm (text "u64") uint64 refl (
                      arm (text "f32") float32 refl
                        (arm (text "f64") float64 refl (last_arm)))))))))))

mutual
  unfolding map_layers

  layers_read :
      (s : TypeShape) (name : Text) (layered : Bool) (path : Text) (d : ℕ) {f : Field}
      → map_layers s name layered path d ≡ ok f
      → (name_of f ≡ name) × (shape_of f ≡ layer layered (canonical s))
  layers_read (primitive label) name layered path d h =
      let (t, e, k) = then-ok (primitive_type label path) _ h in
      rw (← ok_inj k) (refl, ap (layer layered) (primitive_type-shape label path e))
  layers_read (optional inner) name false path d h = layers_read inner name true path d h
  layers_read (optional inner) name true path d h = absurd (cc)
  layers_read (sequence item) name layered path d h =
      let (t, e, k) = then-ok (within_depth (path ++ text "[]") (d + 1) _) _ h in
      let read =
        layers_read item (text "item") false (path ++ text "[]") (d + 1) (within-ok _ _ _ e) in
      rw (← ok_inj k) (refl, ap (λ x. layer layered (sequence x)) read.1)
  layers_read (struct fields) name layered path d h =
      let (t, e, k) = then-ok (struct_fields fields [] path d) _ h in
      rw (← ok_inj k) (refl, ap (λ x. layer layered (struct x)) (fields_read fields [] path d e))
  layers_read (map key value) name layered path d h = elim (Bool-cases (is_map_key key)) [
    | inl m ↦
        let (k, ek, rest) =
          then-ok (within_depth (path ++ text ".key") (d + 1) _) _ (rw (m, if◌then◌else◌) at h) in
        let (v, ev, e) = then-ok (within_depth (path ++ text ".value") (d + 1) _) _ rest in
        let read_key = layers_read key (text "key") false _ (d + 1) (within-ok _ _ _ ek) in
        let read_value = layers_read value (text "value") false _ (d + 1) (within-ok _ _ _ ev) in
        rw (← ok_inj e) (refl, ap (layer layered) (rw (read_key.1, read_value.1) refl))
    | inr m ↦ absurd (err_ok (rw (m, if◌then◌else◌) at h))
  ]

  pub fields_read :
      (fs : Fields) (prior : List Text) (path : Text) (d : ℕ) {out : FieldList}
      → struct_fields fs prior path d ≡ ok out
      → field_shapes out ≡ canonical_fields fs
  fields_read nil prior path d h = rw (← ok_inj h) refl
  fields_read (field name s b rest) prior path d h =
      elim (Bool-cases (any (λ earlier. str_eq earlier name) prior)) [
        | inl m ↦ absurd (err_ok (rw (m, if◌then◌else◌) at h))
        | inr m ↦
            let (this, e, k) =
              then-ok (within_depth (field_path path name) (d + 1) _) _
                (rw (m, if◌then◌else◌) at h) in
            let (others, es, r) = then-ok (struct_fields rest (name ∷ prior) path d) _ k in
            let read = layers_read s name false _ (d + 1) (within-ok _ _ _ e) in
            rw (← ok_inj r, read.0, read.1, fields_read rest _ path d es) refl
      ]

-- What a mapped field says can be read back: its name, and the declared shape up to default marks and the choice
-- between the two text labels. So the mapping loses nothing else.
pub map_field_round :
    (name : Text) (shape : TypeShape) (path : Text) (depth : ℕ) (f : Field)
    → map_field name shape path depth ≡ ok f
    → (name_of f ≡ name) × (shape_of f ≡ canonical shape)
unfolding map_field
map_field_round name shape path depth f h =
    layers_read shape name false path depth (within-ok path depth _ h)
