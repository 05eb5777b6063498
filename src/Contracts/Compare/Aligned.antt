-- ===== src/Contracts/Compare/Aligned.antt =====
-- The index-aligned policies of crates/contracts/src/lib.rs (`ExactOrdered`, `ExactOrderedCI`,
-- `ExactByPosition`) against equality of shapes up to a renaming of fields.
use datacrate.Common.{
  ℕ, ◌≡◌, refl, ap, ◌∙◌, Bool, true, false, not, ◌&&◌, ◌||◌, List, [], ◌∷◌, ◌++◌, Text, arith,
  Bool-cases, inl, inr, any,
}
use datacrate.Contracts.Names.{str_eq}
use datacrate.Contracts.Shape.{
  TypeShape, primitive, optional, sequence, map, struct, Fields, nil, field, Mode, SchemaPolicy,
  policy_mode, exact_ordered, exact_ordered_ci, exact_by_position,
}
use datacrate.Contracts.Diff.{DiffPath, Diff, append_segment, rejects}
use datacrate.Contracts.Compare.{names_match, shape_eq, conforms}
use datacrate.Contracts.Compare.Trace.{shape_diffs, choose_diffs, ordered_diffs, position_diffs}
use datacrate.Contracts.Compare.Display.{root_diffs, all_diffs, conforms-any}

-- Two shapes agree field by field, in order, with names compared by `same`.
unfoldable mutual
  pub aligned : (Text → Text → Bool) → TypeShape → TypeShape → Bool
  aligned same (primitive x) (primitive y) = str_eq x y
  aligned same (optional x) (optional y) = aligned same x y
  aligned same (sequence x) (sequence y) = aligned same x y
  aligned same (map k1 v1) (map k2 v2) = aligned same k1 k2 && aligned same v1 v2
  aligned same (struct f1) (struct f2) = aligned_fields same f1 f2
  aligned same _ _ = false

  pub aligned_fields : (Text → Text → Bool) → Fields → Fields → Bool
  aligned_fields same nil nil = true
  aligned_fields same (field n1 s1 _ r1) (field n2 s2 _ r2) =
      same n1 n2 && (aligned same s1 s2 && aligned_fields same r1 r2)
  aligned_fields same _ _ = false

abbrev pub no_diff : List Diff → Bool
no_diff [] = true
no_diff (_ ∷ _) = false

no_diff-append : (xs ys : List Diff) → no_diff (xs ++ ys) ≡ no_diff xs && no_diff ys
no_diff-append [] ys = refl
no_diff-append (x ∷ xs) ys = refl

abbrev pub same_name : Mode → Text → Text → Bool
same_name mode a b = mode.by_pos || names_match mode.ci a b

choose_ordered :
    (mode : Mode) (xs ys zs : List Diff)
    → mode.by_pos ≡ false
    → mode.ordered ≡ true
    → choose_diffs mode xs ys zs ≡ ys
choose_ordered mode xs ys zs p o = ground arith

choose_position :
    (mode : Mode) (xs ys zs : List Diff) → mode.by_pos ≡ true → choose_diffs mode xs ys zs ≡ xs
choose_position mode xs ys zs p = ground arith

mutual
  unfolding shape_diffs aligned

  shape-aligned :
      (p c : TypeShape) (path : DiffPath) (depth : ℕ) (mode : Mode)
      → mode.by_pos || mode.ordered ≡ true
      → no_diff (shape_diffs p c path depth mode) ≡ aligned (same_name mode) p c
  shape-aligned (primitive p) (primitive c) path depth mode h = ground arith
  shape-aligned (optional p) (optional c) path depth mode h = shape-aligned p c path depth mode h
  shape-aligned (sequence p) (sequence c) path depth mode h = shape-aligned p c _ _ mode h
  shape-aligned (map pk pv) (map ck cv) path depth mode h =
      no_diff-append (shape_diffs pk ck _ _ mode) (shape_diffs pv cv _ _ mode)
      ∙ rw (shape-aligned pk ck _ _ mode h, shape-aligned pv cv _ _ mode h)
  shape-aligned (struct pf) (struct cf) path depth mode h = elim (Bool-cases mode.by_pos) [
    | inl e ↦ rw (choose_position mode _ _ _ e) (position-aligned pf cf path depth mode h e)
    | inr e ↦
        let o : mode.ordered ≡ true = ground arith in
        rw (choose_ordered mode _ _ _ e o) (ordered-aligned pf cf path depth mode h e)
  ]
  shape-aligned p c path depth mode h = refl

  ordered-aligned :
      (p c : Fields) (path : DiffPath) (depth : ℕ) (mode : Mode)
      → mode.by_pos || mode.ordered ≡ true
      → mode.by_pos ≡ false
      → no_diff (ordered_diffs p c path depth mode) ≡ aligned_fields (same_name mode) p c
  ordered-aligned (field pn ps _ pr) (field cn cs _ cr) path depth mode h e =
      elim (Bool-cases (names_match mode.ci pn cn)) [
        | inr m ↦ ground arith
        | inl m ↦ ground (
          arith,
          no_diff-append
              (shape_diffs ps cs (append_segment path depth cn).0 (append_segment path depth cn).1
                mode)
              (ordered_diffs pr cr path depth mode),
          shape-aligned ps cs (append_segment path depth cn).0 (append_segment path depth cn).1 mode
              h,
          ordered-aligned pr cr path depth mode h e,
        )
      ]
  ordered-aligned nil nil path depth mode h e = refl
  ordered-aligned nil (field _ _ _ _) path depth mode h e = refl
  ordered-aligned (field _ _ _ _) nil path depth mode h e = refl

  position-aligned :
      (p c : Fields) (path : DiffPath) (depth : ℕ) (mode : Mode)
      → mode.by_pos || mode.ordered ≡ true
      → mode.by_pos ≡ true
      → no_diff (position_diffs p c path depth mode) ≡ aligned_fields (same_name mode) p c
  position-aligned (field pn ps _ pr) (field cn cs _ cr) path depth mode h e = ground (
    arith,
    no_diff-append
        (shape_diffs ps cs (append_segment path depth pn).0 (append_segment path depth pn).1 mode)
        (position_diffs pr cr path depth mode),
    shape-aligned ps cs (append_segment path depth pn).0 (append_segment path depth pn).1 mode h,
    position-aligned pr cr path depth mode h e,
  )
  position-aligned nil nil path depth mode h e = refl
  position-aligned nil (field _ _ _ _) path depth mode h e = refl
  position-aligned (field _ _ _ _) nil path depth mode h e = refl

-- A policy that rejects every difference.
abbrev pub IsStrict : SchemaPolicy → Type 0
IsStrict policy = (d : Diff) → rejects d policy ≡ true

pub any_strict :
    (policy : SchemaPolicy) (ds : List Diff)
    → IsStrict policy
    → any (λ d. rejects d policy) ds ≡ not (no_diff ds)
any_strict policy [] s = refl
any_strict policy (d ∷ ds) s = rw (s d)

pub ordered-IsStrict : IsStrict exact_ordered
unfolding rejects
ordered-IsStrict d = refl

pub ordered_ci-IsStrict : IsStrict exact_ordered_ci
unfolding rejects
ordered_ci-IsStrict d = refl

pub position-IsStrict : IsStrict exact_by_position
unfolding rejects
position-IsStrict d = refl

pub not-not : (b : Bool) → not (not b) ≡ b
not-not true = refl
not-not false = refl

pub struct-aligned :
    (p c : Fields) (policy : SchemaPolicy)
    → IsStrict policy
    → (policy_mode policy).by_pos || (policy_mode policy).ordered ≡ true
    → conforms (struct p) (struct c) policy ≡ aligned_fields (same_name (policy_mode policy)) p c
unfolding root_diffs aligned shape_diffs
struct-aligned p c policy s h =
    conforms-any (struct p) (struct c) policy
    ∙ ap not (any_strict policy (all_diffs (struct p) (struct c) policy) s)
    ∙ not-not _
    ∙ shape-aligned (struct p) (struct c) _ 0 (policy_mode policy) h

mutual
  unfolding aligned shape_eq

  pub shape_eq-aligned : (p c : TypeShape) → shape_eq p c ≡ aligned str_eq p c
  shape_eq-aligned (primitive p) (primitive c) = refl
  shape_eq-aligned (optional p) (optional c) = shape_eq-aligned p c
  shape_eq-aligned (sequence p) (sequence c) = shape_eq-aligned p c
  shape_eq-aligned (map pk pv) (map ck cv) = rw (shape_eq-aligned pk ck, shape_eq-aligned pv cv)
  shape_eq-aligned (struct pf) (struct cf) = fields_eq-aligned pf cf
  shape_eq-aligned _ _ = refl

  pub fields_eq-aligned :
      (p c : Fields) → shape_eq (struct p) (struct c) ≡ aligned_fields str_eq p c
  fields_eq-aligned nil nil = refl
  fields_eq-aligned (field pn ps _ pr) (field cn cs _ cr) =
      ground (arith, shape_eq-aligned ps cs, fields_eq-aligned pr cr)
  fields_eq-aligned nil (field _ _ _ _) = refl
  fields_eq-aligned (field _ _ _ _) nil = refl
