-- ===== src/Contracts/Compare/Ordered.antt =====
-- What the three index-aligned policies of crates/contracts/src/lib.rs accept.
use datacrate.Common.{
  ◌≡◌, ◌↔◌, refl, sym, ap, ◌∙◌, Bool, true, false, not, ◌&&◌, [], ◌∷◌, Text, arith, if◌then◌else◌,
}
use mathlib.Core.Path.{fun_ext}
use datacrate.Contracts.Names.{str_eq, lower, str_eq_iff, str_eq_ci-lower}
use datacrate.Contracts.Shape.{
  TypeShape, primitive, optional, sequence, map, struct, Fields, nil, field, policy_mode,
  exact_ordered, exact_ordered_ci, exact_by_position,
}
use datacrate.Contracts.Diff.{Diff}
use datacrate.Contracts.Compare.{names_match, shape_eq, conforms}
use datacrate.Contracts.Compare.Display.{root_diffs, all_diffs, conforms-any}
use datacrate.Contracts.Compare.Aligned.{
  aligned, aligned_fields, same_name, no_diff, any_strict, not-not, struct-aligned,
  fields_eq-aligned, ordered-IsStrict, ordered_ci-IsStrict, position-IsStrict,
}

-- A shape with every field renamed and its default mark dropped.
unfoldable mutual
  pub rename : (Text → Text) → TypeShape → TypeShape
  rename f (primitive x) = primitive x
  rename f (optional s) = optional (rename f s)
  rename f (sequence s) = sequence (rename f s)
  rename f (map k v) = map (rename f k) (rename f v)
  rename f (struct fs) = struct (rename_fields f fs)

  pub rename_fields : (Text → Text) → Fields → Fields
  rename_fields f nil = nil
  rename_fields f (field n s _ rest) = field (f n) (rename f s) false (rename_fields f rest)

-- Names that are the same after `f`.
abbrev pub by_name : (Text → Text) → Text → Text → Bool
by_name f a b = str_eq (f a) (f b)

and_parts : (a b : Bool) → a && b ≡ true → (a ≡ true) × (b ≡ true)
and_parts a b h = ground arith

mutual
  unfolding aligned rename

  pub aligned_sound :
      (f : Text → Text) (p c : TypeShape) → aligned (by_name f) p c ≡ true → rename f p ≡ rename f c
  aligned_sound f (primitive p) (primitive c) h = cc ((str_eq_iff p c).0 h)
  aligned_sound f (optional p) (optional c) h = cc (aligned_sound f p c h)
  aligned_sound f (sequence p) (sequence c) h = cc (aligned_sound f p c h)
  aligned_sound f (map pk pv) (map ck cv) h =
      let both : (aligned (by_name f) pk ck ≡ true) × (aligned (by_name f) pv cv ≡ true) =
        and_parts _ _ h in
      cc (aligned_sound f pk ck both.0, aligned_sound f pv cv both.1)
  aligned_sound f (struct p) (struct c) h = cc (fields_sound f p c h)
  aligned_sound f _ _ h = cc

  fields_sound :
      (f : Text → Text) (p c : Fields)
      → aligned_fields (by_name f) p c ≡ true
      → rename_fields f p ≡ rename_fields f c
  fields_sound f nil nil h = refl
  fields_sound f (field pn ps _ pr) (field cn cs _ cr) h =
      let both =
        and_parts (by_name f pn cn) (aligned (by_name f) ps cs && aligned_fields (by_name f) pr cr)
          h in
      let rest = and_parts (aligned (by_name f) ps cs) (aligned_fields (by_name f) pr cr) both.1 in
      cc (
        (str_eq_iff (f pn) (f cn)).0 both.0,
        aligned_sound f ps cs rest.0,
        fields_sound f pr cr rest.1,
      )
  fields_sound f _ _ h = cc

mutual
  unfolding aligned rename

  pub aligned_refl :
      (f : Text → Text) (p c : TypeShape) → rename f p ≡ rename f c → aligned (by_name f) p c ≡ true
  aligned_refl f (primitive p) (primitive c) h = (str_eq_iff p c).1 (cc)
  aligned_refl f (optional p) (optional c) h = aligned_refl f p c (cc)
  aligned_refl f (sequence p) (sequence c) h = aligned_refl f p c (cc)
  aligned_refl f (map pk pv) (map ck cv) h =
      rw (aligned_refl f pk ck (cc), aligned_refl f pv cv (cc))
  aligned_refl f (struct p) (struct c) h = fields_refl f p c (cc)
  aligned_refl f _ _ h = cc

  fields_refl :
      (f : Text → Text) (p c : Fields)
      → rename_fields f p ≡ rename_fields f c
      → aligned_fields (by_name f) p c ≡ true
  fields_refl f nil nil h = refl
  fields_refl f (field pn ps _ pr) (field cn cs _ cr) h =
      let same : f pn ≡ f cn = cc in
      rw ((str_eq_iff (f pn) (f cn)).1 same, aligned_refl f ps cs (cc), fields_refl f pr cr (cc))
  fields_refl f _ _ h = cc

root-empty :
    (p c : TypeShape) (d : Diff)
    → no_diff (if not (shape_eq p c) then d ∷ [] else []) ≡ shape_eq p c
root-empty p c d = ground arith

-- Under `ExactOrdered` the traversal decides the same relation as the structural `shape_eq`.
pub conforms-shape_eq : (p c : TypeShape) → conforms p c exact_ordered ≡ shape_eq p c
unfolding root_diffs policy_mode names_match
conforms-shape_eq (struct p) (struct c) =
    struct-aligned p c exact_ordered ordered-IsStrict refl ∙ sym (fields_eq-aligned p c)
conforms-shape_eq p c =
    conforms-any p c exact_ordered
    ∙ ap not (any_strict exact_ordered (all_diffs p c exact_ordered) ordered-IsStrict)
    ∙ not-not _
    ∙ root-empty p c _

-- `ExactByPosition` accepts two structs exactly when they are equal once all field names and
-- default marks go.
pub by_position_iff :
    (p c : Fields)
    → (conforms (struct p) (struct c) exact_by_position ≡ true)
      ↔ (rename (λ _. []) (struct p) ≡ rename (λ _. []) (struct c))
unfolding policy_mode str_eq rename aligned
by_position_iff p c =
    rw (struct-aligned p c exact_by_position position-IsStrict refl)
      (aligned_sound (λ _. []) (struct p) (struct c), aligned_refl (λ _. []) (struct p) (struct c))

pub ci-by_name : same_name (policy_mode exact_ordered_ci) ≡ by_name lower
unfolding policy_mode names_match
ci-by_name = fun_ext (λ a. fun_ext (λ b. str_eq_ci-lower a b))

-- `ExactOrderedCI` accepts two structs exactly when they are equal once all field names are folded
-- to lower case and default marks go.
pub ordered_ci_iff :
    (p c : Fields)
    → (conforms (struct p) (struct c) exact_ordered_ci ≡ true)
      ↔ (rename lower (struct p) ≡ rename lower (struct c))
unfolding policy_mode rename aligned
ordered_ci_iff p c =
    rw (struct-aligned p c exact_ordered_ci ordered_ci-IsStrict refl, ci-by_name)
      (aligned_sound lower (struct p) (struct c), aligned_refl lower (struct p) (struct c))
