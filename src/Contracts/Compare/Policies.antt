-- ===== src/Contracts/Compare/Policies.antt =====
-- The policies of crates/contracts/src/lib.rs against one another and on a shape against itself.
use datacrate.Common.{◌≡◌, refl, sym, ap, ◌∙◌, Bool, true, false, not, List, [], ◌∷◌, any, inl, inr}
use datacrate.Contracts.Shape.{
  TypeShape, primitive, optional, sequence, map, struct, Fields, nil, field, FieldShape,
  SchemaPolicy, policy_mode, exact, exact_unordered_ci, exact_ordered, exact_ordered_ci,
  exact_by_position, backward, forward, full,
}
use datacrate.Contracts.Diff.{Diff, rejects}
use datacrate.Contracts.Compare.{conforms, shape_eq}
use datacrate.Contracts.Compare.Display.{root_diffs, all_diffs, conforms-any}
use datacrate.Contracts.Compare.Aligned.{aligned, shape_eq-aligned}
use datacrate.Contracts.Compare.Ordered.{
  aligned_refl, conforms-shape_eq, by_position_iff, ordered_ci_iff,
}
use datacrate.Contracts.Compare.Lookup.{IsUnique, Contains, Contains-Named}
use datacrate.Contracts.Compare.Accepted.{KnownTo, Covers, Accepts, folds_case}
use datacrate.Contracts.Compare.ByName.{by_name_iff}

any_full : (ds : List Diff) → any (λ d. rejects d full) ds ≡ false
unfolding rejects
any_full [] = refl
any_full (d ∷ ds) = any_full ds

-- `Full` accepts every pair of shapes.
pub conforms_full : (p c : TypeShape) → conforms p c full ≡ true
conforms_full p c = conforms-any p c full ∙ ap not (any_full (all_diffs p c full))

any_exact :
    (ds : List Diff) → any (λ d. rejects d exact) ds ≡ any (λ d. rejects d exact_unordered_ci) ds
unfolding rejects
any_exact [] = refl
any_exact (d ∷ ds) = refl

-- `Exact` and `ExactUnorderedCI` are one policy under two names.
pub exact_alias : (p c : TypeShape) → conforms p c exact ≡ conforms p c exact_unordered_ci
unfolding policy_mode
exact_alias p c =
    conforms-any p c exact
    ∙ ap not (any_exact (all_diffs p c exact))
    ∙ sym (conforms-any p c exact_unordered_ci)

abbrev mutual
  -- Names are unique in every struct of the shape, at every depth.
  pub IsWellNamed : Bool → TypeShape → Type 0
  IsWellNamed ci (primitive x) = Unit {0}
  IsWellNamed ci (optional s) = IsWellNamed ci s
  IsWellNamed ci (sequence s) = IsWellNamed ci s
  IsWellNamed ci (map k v) = IsWellNamed ci k × IsWellNamed ci v
  IsWellNamed ci (struct fs) = IsUnique ci fs × AreWellNamed ci fs

  pub AreWellNamed : Bool → Fields → Type 0
  AreWellNamed ci nil = Unit {0}
  AreWellNamed ci (field n s d rest) = IsWellNamed ci s × AreWellNamed ci rest

known_part :
    (policy : SchemaPolicy) (whole fs : Fields)
    → ((f : FieldShape) → Contains fs f → Contains whole f)
    → KnownTo policy whole fs
known_part policy whole nil part = tt
known_part policy whole (field n s d rest) part = (
  inl (
      Contains-Named (folds_case policy) n whole (record { name = n; shape = s; has_default = d })
        (part _ (inl refl)) refl),
  known_part policy whole rest (λ f c. part f (inr c)),
)

mutual
  Accepts-self :
      (policy : SchemaPolicy) (s : TypeShape)
      → IsWellNamed (folds_case policy) s
      → Accepts policy s s
  Accepts-self policy (primitive x) w = refl
  Accepts-self policy (optional s) w = Accepts-self policy s w
  Accepts-self policy (sequence s) w = Accepts-self policy s w
  Accepts-self policy (map k v) w = (Accepts-self policy k w.0, Accepts-self policy v w.1)
  Accepts-self policy (struct fs) w =
      (w.0, w.0, Covers-part policy fs fs (λ f c. c) w.1, known_part policy fs fs (λ f c. c))

  Covers-part :
      (policy : SchemaPolicy) (whole fs : Fields)
      → ((f : FieldShape) → Contains fs f → Contains whole f)
      → AreWellNamed (folds_case policy) fs
      → Covers policy whole fs
  Covers-part policy whole nil part w = tt
  Covers-part policy whole (field n s d rest) part w = (
    inl (
      record { name = n; shape = s; has_default = d },
      part _ (inl refl),
      refl,
      Accepts-self policy s w.0,
    ),
    Covers-part policy whole rest (λ f c. part f (inr c)) w.1,
  )

shape_eq_refl : (s : TypeShape) → shape_eq s s ≡ true
unfolding aligned
shape_eq_refl s = shape_eq-aligned s s ∙ aligned_refl (λ n. n) s s refl

struct_self :
    (policy : SchemaPolicy) (fs : Fields)
    → IsWellNamed (folds_case policy) (struct fs)
    → conforms (struct fs) (struct fs) policy ≡ true
struct_self exact fs w = (by_name_iff exact fs fs tt).1 (Accepts-self exact (struct fs) w)
struct_self exact_unordered_ci fs w =
    (by_name_iff exact_unordered_ci fs fs tt).1 (Accepts-self exact_unordered_ci (struct fs) w)
struct_self exact_ordered fs w =
    conforms-shape_eq (struct fs) (struct fs) ∙ shape_eq_refl (struct fs)
struct_self exact_ordered_ci fs w = (ordered_ci_iff fs fs).1 refl
struct_self exact_by_position fs w = (by_position_iff fs fs).1 refl
struct_self backward fs w = (by_name_iff backward fs fs tt).1 (Accepts-self backward (struct fs) w)
struct_self forward fs w = (by_name_iff forward fs fs tt).1 (Accepts-self forward (struct fs) w)
struct_self full fs w = conforms_full (struct fs) (struct fs)

-- A shape whose structs have unique names, at every depth, conforms to itself under every policy.
-- Unique means after folding case, except under `Backward` and `Forward`, where case counts.
pub conforms_self :
    (policy : SchemaPolicy) (s : TypeShape)
    → IsWellNamed (folds_case policy) s
    → conforms s s policy ≡ true
unfolding root_diffs
conforms_self policy (struct fs) w = struct_self policy fs w
conforms_self policy s w = conforms-any s s policy ∙ rw (shape_eq_refl s)
