-- ===== src/Contracts/Arrow/Exact.antt =====
-- Declarations that the `ExactOrdered` policy connects, as crates/contracts/src/arrow.rs maps them.
use datacrate.Common.{
  ℕ, ◌+◌, Bool, true, false, not, ◌||◌, ◌&&◌, List, [], ◌∷◌, ◌++◌, Text, text, if◌then◌else◌, ◌≡◌,
  refl, arith,
}
use datacrate.Contracts.Names.{str_eq, str_eq_iff}
use datacrate.Contracts.Shape.{
  TypeShape, primitive, optional, sequence, map, struct, Fields, nil, field, exact_ordered,
}
use datacrate.Contracts.Compare.{shape_eq, fields_eq, conforms}
use datacrate.Contracts.Compare.Ordered.{conforms-shape_eq}
use datacrate.Contracts.Arrow.{map_layers, struct_fields, is_map_key, schema, field_path}
use datacrate.Contracts.Arrow.Validation.{new_validator}

true_and : (a b : Bool) → a && b ≡ true → (a ≡ true) × (b ≡ true)
true_and a b h = ground arith

true_step :
    (a b c : Bool)
    → (if not a || not b then false else c) ≡ true
    → (a ≡ true) × (b ≡ true) × (c ≡ true)
true_step a b c h = ground arith

is_map_key-eq : (p c : TypeShape) → shape_eq p c ≡ true → is_map_key p ≡ is_map_key c
unfolding is_map_key shape_eq
is_map_key-eq (primitive p) (primitive c) h = rw ((str_eq_iff p c).0 h) refl
is_map_key-eq (primitive p) c h = absurd (cc)
is_map_key-eq p (primitive c) h = absurd (cc)
is_map_key-eq p c h = refl

mutual
  unfolding map_layers shape_eq

  layers_eq :
      (p c : TypeShape) (name : Text) (layered : Bool) (path : Text) (d : ℕ)
      → shape_eq p c ≡ true
      → map_layers p name layered path d ≡ map_layers c name layered path d
  layers_eq (primitive p) (primitive c) name layered path d h = rw ((str_eq_iff p c).0 h) refl
  layers_eq (optional p) (optional c) name false path d h = layers_eq p c name true path d h
  layers_eq (optional p) (optional c) name true path d h = refl
  layers_eq (sequence p) (sequence c) name layered path d h =
      rw (layers_eq p c (text "item") false (path ++ text "[]") (d + 1) h) refl
  layers_eq (map pk pv) (map ck cv) name layered path d h =
      let both = true_and (shape_eq pk ck) (shape_eq pv cv) h in
      rw
        (
          layers_eq pk ck (text "key") false (path ++ text ".key") (d + 1) both.0,
          layers_eq pv cv (text "value") false (path ++ text ".value") (d + 1) both.1,
          is_map_key-eq pk ck both.0,
        )
        refl
  layers_eq (struct p) (struct c) name layered path d h = rw (struct_fields_eq p c [] path d h) refl
  layers_eq p c name layered path d h = absurd (cc)

  struct_fields_eq :
      (p c : Fields) (prior : List Text) (path : Text) (d : ℕ)
      → fields_eq p c ≡ true
      → struct_fields p prior path d ≡ struct_fields c prior path d
  struct_fields_eq nil nil prior path d h = refl
  struct_fields_eq (field n s b rest) (field m t e others) prior path d h =
      let (names, shapes, tails) =
        true_step (str_eq n m) (shape_eq s t) (fields_eq rest others) h in
      let same : n ≡ m = (str_eq_iff n m).0 names in
      rw
        (
          ← same,
          layers_eq s t n false (field_path path n) (d + 1) shapes,
          struct_fields_eq rest others (n ∷ prior) path d tails,
        )
        refl
  struct_fields_eq p c prior path d h = absurd (cc)

prepared : (p c : TypeShape) → shape_eq p c ≡ true → new_validator p ≡ new_validator c
unfolding new_validator schema shape_eq
prepared (struct p) (struct c) h = rw (struct_fields_eq p c [] [] 0 h) refl
prepared (struct p) c h = absurd (cc)
prepared p (struct c) h = absurd (cc)
prepared p c h = refl

-- Declarations that `ExactOrdered` accepts in place of one another are prepared alike: the same
-- mapping error, or the same Arrow schema with the same checks.
pub validator-exact_ordered :
    (p c : TypeShape) → conforms p c exact_ordered ≡ true → new_validator p ≡ new_validator c
validator-exact_ordered p c h = prepared p c (rw (conforms-shape_eq p c) at h)
