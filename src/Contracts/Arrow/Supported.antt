-- ===== src/Contracts/Arrow/Supported.antt =====
-- Which declared shapes crates/contracts/src/arrow.rs can map, without reference to the mapping: no
-- adjacent optional layers, known primitives, admissible map keys, unique field names, and nesting
-- within the depth limit.
use datacrate.Common.{
  ℕ, ◌+◌, ◌≤◌, max, Bool, true, false, List, [], ◌∷◌, ◌++◌, Text, text, Result, ok, err, ◌>>=◌,
  if◌then◌else◌, any, arith, ◌≡◌, refl, ◌↔◌, inl, inr, Bool-cases,
}
use datacrate.Contracts.Names.{str_eq, str_eq_iff, str_eq_refl}
use datacrate.Contracts.Shape.{
  TypeShape, primitive, optional, sequence, map, struct, Fields, nil, field,
}
use datacrate.Contracts.Compare.Lookup.{Named, IsUnique}
use datacrate.Contracts.Arrow.{
  MappingError, max_depth, within_depth, map_layers, struct_fields, map_field, primitive_type,
  is_map_key, field_path, schema,
}

abbrev pub IsOk : {E A : Type 0} → Result E A → Type 0
IsOk (ok _) = Unit {0}
IsOk (err _) = ⊥

abbrev pub primitive_labels : List Text
primitive_labels =
    text "bool"
    ∷ text "i8"
    ∷ text "i16"
    ∷ text "i32"
    ∷ text "i64"
    ∷ text "u8"
    ∷ text "u16"
    ∷ text "u32"
    ∷ text "u64"
    ∷ text "f32"
    ∷ text "f64"
    ∷ text "str"
    ∷ text "String"
    ∷ []

-- Field levels below the shape; optional layers add none.
abbrev mutual
  pub height : TypeShape → ℕ
  height (primitive _) = 0
  height (optional inner) = height inner
  height (sequence item) = 1 + height item
  height (map key value) = 1 + max (height key) (height value)
  height (struct fields) = heights fields

  pub heights : Fields → ℕ
  heights nil = 0
  heights (field _ shape _ rest) = max (1 + height shape) (heights rest)

-- `layered`: whether an optional layer is already around the shape.
abbrev mutual
  pub IsMappable : TypeShape → Bool → Type 0
  IsMappable (primitive label) layered = any (str_eq label) primitive_labels ≡ true
  IsMappable (optional inner) false = IsMappable inner true
  IsMappable (optional inner) true = ⊥
  IsMappable (sequence item) layered = IsMappable item false
  IsMappable (map key value) layered =
      (is_map_key key ≡ true) × IsMappable key false × IsMappable value false
  IsMappable (struct fields) layered = IsUnique false fields × AreMappable fields

  pub AreMappable : Fields → Type 0
  AreMappable nil = Unit {0}
  AreMappable (field _ shape _ rest) = IsMappable shape false × AreMappable rest

-- The names that the loop meets are new to it.
abbrev IsFresh : Fields → List Text → Type 0
IsFresh nil prior = Unit {0}
IsFresh (field name _ _ rest) prior =
    (any (λ earlier. str_eq earlier name) prior ≡ false) × IsFresh rest (name ∷ prior)

IsFresh-IsUnique :
    (fs : Fields) (prior : List Text)
    → IsFresh fs prior
    → IsUnique false fs
      × ((n : Text) → Named false n fs → any (λ earlier. str_eq earlier n) prior ≡ false)
IsFresh-IsUnique nil prior h = (tt, λ n d. absurd d)
IsFresh-IsUnique (field name s d rest) prior h =
    let (unique, new) = IsFresh-IsUnique rest (name ∷ prior) h.1 in
    (
      (λ named. ground (arith, new name named, str_eq_refl name), unique),
      λ n named. elim named [
        | inl e ↦ let same : name ≡ n = e in rw (← same) h.0
        | inr r ↦ ground (arith, new n r)
      ],
    )

IsFresh-of_unique :
    (fs : Fields) (prior : List Text)
    → IsUnique false fs
    → ((n : Text) → Named false n fs → any (λ earlier. str_eq earlier n) prior ≡ false)
    → IsFresh fs prior
IsFresh-of_unique nil prior u new = tt
IsFresh-of_unique (field name s d rest) prior u new = (
  new name (inl refl),
  IsFresh-of_unique rest (name ∷ prior) u.1 (λ n named. elim (Bool-cases (str_eq name n)) [
    | inl e ↦ absurd (u.0 (rw ((str_eq_iff name n).0 e) named))
    | inr e ↦ rw e (new n (inr named))
  ]),
)

primitive_type-known :
    (label path : Text)
    → IsOk (primitive_type label path) ↔ (any (str_eq label) primitive_labels ≡ true)
unfolding primitive_type
primitive_type-known label path = ground arith

IsOk-within :
    {A : Type 0} (path : Text) (d : ℕ) (r : Result MappingError A)
    → IsOk (within_depth path d r)
    → (d ≤ max_depth) × IsOk r
unfolding within_depth
IsOk-within path d r h = ground arith

IsOk-within_of :
    {A : Type 0} (path : Text) (d : ℕ) (r : Result MappingError A)
    → d ≤ max_depth
    → IsOk r
    → IsOk (within_depth path d r)
unfolding within_depth
IsOk-within_of path d r le h = ground arith

module _ {E A B : Type 0} where
  IsOk-then : (r : Result E A) (f : A → Result E B) → IsOk (r >>= f) → IsOk r
  IsOk-then (ok a) f h = tt
  IsOk-then (err e) f h = h

  IsOk-last : (r : Result E A) (f : A → B) → IsOk r → IsOk (r >>= λ a. ok (f a))
  IsOk-last (ok a) f h = tt
  IsOk-last (err e) f h = h

  IsOk-second :
      {C : Type 0} (r : Result E A) (q : Result E B) (f : A → B → C)
      → IsOk (r >>= λ a. q >>= λ b. ok (f a b))
      → IsOk q
  IsOk-second (ok a) q f h = IsOk-then' q (f a) h
    where
      IsOk-then' : {C : Type 0} (q : Result E B) (f : B → C) → IsOk (q >>= λ b. ok (f b)) → IsOk q
      IsOk-then' (ok a) f h = tt
      IsOk-then' (err e) f h = h
  IsOk-second (err e) q f h = absurd h

  IsOk-both :
      {C : Type 0} (r : Result E A) (q : Result E B) (f : A → B → C)
      → IsOk r
      → IsOk q
      → IsOk (r >>= λ a. q >>= λ b. ok (f a b))
  IsOk-both (ok a) (ok b) f h k = tt
  IsOk-both (ok a) (err e) f h k = k
  IsOk-both (err e) q f h k = h

mutual
  unfolding map_layers

  sound :
      (s : TypeShape) (name : Text) (layered : Bool) (path : Text) (d : ℕ)
      → IsOk (within_depth path d (map_layers s name layered path d))
      → (d + height s ≤ max_depth) × IsMappable s layered
  sound (primitive label) name layered path d h =
      let (le, k) = IsOk-within path d _ h in
      (omega arith, (primitive_type-known label path).0 (IsOk-then (primitive_type label path) _ k))
  sound (optional inner) name false path d h = sound inner name true path d h
  sound (optional inner) name true path d h = absurd (IsOk-within path d _ h).1
  sound (sequence item) name layered path d h =
      let (le, k) = IsOk-within path d _ h in
      let r = sound item (text "item") false (path ++ text "[]") (d + 1) (IsOk-then _ _ k) in
      let deep : d + 1 + height item ≤ max_depth = r.0 in (omega arith, r.1)
  sound (struct fields) name layered path d h =
      let (le, k) = IsOk-within path d _ h in
      let (deep, fresh, m) = fields_sound fields [] path d le (IsOk-then _ _ k) in
      (deep, ((IsFresh-IsUnique fields [] fresh).0, m))
  sound (map key value) name layered path d h =
      let (le, k) = IsOk-within path d _ h in
      elim (Bool-cases (is_map_key key)) [
        | inl e ↦
            let both = rw (e, if◌then◌else◌) at k in
            let rk =
              sound key (text "key") false (path ++ text ".key") (d + 1) (IsOk-then _ _ both) in
            let rv =
              sound value (text "value") false (path ++ text ".value") (d + 1)
                (IsOk-second _ _ _ both) in
            let dk : d + 1 + height key ≤ max_depth = rk.0 in
            let dv : d + 1 + height value ≤ max_depth = rv.0 in (omega arith, (e, rk.1, rv.1))
        | inr e ↦ absurd (rw (e, if◌then◌else◌) at k)
      ]

  fields_sound :
      (fs : Fields) (prior : List Text) (path : Text) (d : ℕ)
      → d ≤ max_depth
      → IsOk (struct_fields fs prior path d)
      → (d + heights fs ≤ max_depth) × IsFresh fs prior × AreMappable fs
  fields_sound nil prior path d le h = (omega arith, tt, tt)
  fields_sound (field name s b rest) prior path d le h =
      elim (Bool-cases (any (λ earlier. str_eq earlier name) prior)) [
        | inl e ↦ absurd (rw (e, if◌then◌else◌) at h)
        | inr e ↦
            let both = rw (e, if◌then◌else◌) at h in
            let this = sound s name false (field_path path name) (d + 1) (IsOk-then _ _ both) in
            let others = fields_sound rest (name ∷ prior) path d le (IsOk-second _ _ _ both) in
            let dk : d + 1 + height s ≤ max_depth = this.0 in
            let dv : d + heights rest ≤ max_depth = others.0 in
            (omega arith, (e, others.1), (this.1, others.2))
      ]

mutual
  unfolding map_layers

  complete :
      (s : TypeShape) (name : Text) (layered : Bool) (path : Text) (d : ℕ)
      → d + height s ≤ max_depth
      → IsMappable s layered
      → IsOk (within_depth path d (map_layers s name layered path d))
  complete (primitive label) name layered path d le m =
      IsOk-within_of path d _ (omega arith)
        (IsOk-last (primitive_type label path) _ ((primitive_type-known label path).1 m))
  complete (optional inner) name false path d le m = complete inner name true path d le m
  complete (optional inner) name true path d le m = absurd m
  complete (sequence item) name layered path d le m = IsOk-within_of path d _ (omega arith) (
      IsOk-last _ _ (complete item (text "item") false (path ++ text "[]") (d + 1) (omega arith) m))
  complete (struct fields) name layered path d le m = IsOk-within_of path d _ (omega arith) (
      IsOk-last _ _ (
        fields_complete fields [] path d le (IsFresh-of_unique fields [] m.0 (λ n named. refl))
          m.1))
  complete (map key value) name layered path d le m = IsOk-within_of path d _ (omega arith) (
      rw (m.0, if◌then◌else◌)
        (IsOk-both _ _ _
          (complete key (text "key") false (path ++ text ".key") (d + 1) (omega arith) m.1)
          (complete value (text "value") false (path ++ text ".value") (d + 1) (omega arith) m.2)))

  fields_complete :
      (fs : Fields) (prior : List Text) (path : Text) (d : ℕ)
      → d + heights fs ≤ max_depth
      → IsFresh fs prior
      → AreMappable fs
      → IsOk (struct_fields fs prior path d)
  fields_complete nil prior path d le fresh m = tt
  fields_complete (field name s b rest) prior path d le fresh m =
      rw (fresh.0, if◌then◌else◌)
        (IsOk-both _ _ _ (complete s name false (field_path path name) (d + 1) (omega arith) m.0)
          (fields_complete rest _ path d (omega arith) fresh.1 m.1))

-- A field is mapped exactly where its shape has no adjacent optional layers, only known primitives and
-- admissible map keys, unique names in every struct, and fits below the depth limit.
pub map_field_iff :
    (name : Text) (shape : TypeShape) (path : Text) (depth : ℕ)
    → IsOk (map_field name shape path depth)
      ↔ ((depth + height shape ≤ max_depth) × IsMappable shape false)
unfolding map_field
map_field_iff name shape path depth =
    (sound shape name false path depth, λ h. complete shape name false path depth h.0 h.1)

-- A schema exists exactly for a struct at the root, with unique field names, whose fields can all be
-- mapped within the depth limit.
pub schema_iff :
    (fields : Fields)
    → IsOk (schema (struct fields))
      ↔ ((heights fields ≤ max_depth) × IsUnique false fields × AreMappable fields)
unfolding schema
schema_iff fields = (
  λ h.
      let (deep, fresh, m) = fields_sound fields [] [] 0 (omega arith) h in
      (omega arith, (IsFresh-IsUnique fields [] fresh).0, m),
  λ h.
      fields_complete fields [] [] 0 (omega arith)
        (IsFresh-of_unique fields [] h.1 (λ n named. refl)) h.2,
)
