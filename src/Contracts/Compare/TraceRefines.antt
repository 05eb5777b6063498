-- ===== src/Contracts/Compare/TraceRefines.antt =====
-- The traversal of crates/contracts/src/lib.rs pushes exactly the differences of its trace, in order.
use datacrate.Common.{
  ℕ, ◌≡◌, refl, List, [], ◌∷◌, ◌++◌, arith, if◌then◌else◌, match_option, Bool-cases, Option-cases,
  inl, inr,
}
use datacrate.Contracts.Shape.{
  TypeShape, primitive, optional, sequence, map, struct, Fields, nil, field, Mode,
}
use datacrate.Contracts.Diff.{DiffPath, Diff, Comparison, push}
use datacrate.Contracts.Compare.{
  names_match, find_field_mode, duplicate_field_name, extra_fields, trailing_missing,
  trailing_extra, compare_by_name, choose_walk, name_mismatch, compare_shapes, name_walk,
  ordered_walk, position_walk, compare_fields,
}
use datacrate.Contracts.Compare.Trace.{
  extra_diffs, missing_tail, extra_tail, name_diffs, choose_diffs, shape_diffs, matched_diffs,
  ordered_diffs, position_diffs, field_diffs,
}

abbrev pub push_all : List Diff → Comparison → Comparison
push_all [] s = s
push_all (d ∷ ds) s = push_all ds (push s d)

pub push_all-append :
    (xs ys : List Diff) (s : Comparison) → push_all (xs ++ ys) s ≡ push_all ys (push_all xs s)
push_all-append [] ys s = refl
push_all-append (x ∷ xs) ys s = push_all-append xs ys (push s x)

extra_fields-trace :
    (contract producer : Fields) (path : DiffPath) (depth : ℕ) (mode : Mode) (s : Comparison)
    → extra_fields contract producer path depth mode s
      ≡ push_all (extra_diffs contract producer path depth mode) s
unfolding extra_fields
extra_fields-trace contract nil path depth mode s = refl
extra_fields-trace contract (field name _ _ rest) path depth mode s =
    elim (Option-cases (find_field_mode contract name mode.ci)) [
      | inl e ↦ rw (e, match_option) (extra_fields-trace contract rest path depth mode _)
      | inr (f, e) ↦ rw (e, match_option) (extra_fields-trace contract rest path depth mode _)
    ]

trailing_missing-trace :
    (contract : Fields) (path : DiffPath) (depth : ℕ) (s : Comparison)
    → trailing_missing contract path depth s ≡ push_all (missing_tail contract path depth) s
unfolding trailing_missing
trailing_missing-trace nil path depth s = refl
trailing_missing-trace (field _ _ _ rest) path depth s = trailing_missing-trace rest path depth _

trailing_extra-trace :
    (producer : Fields) (path : DiffPath) (depth : ℕ) (s : Comparison)
    → trailing_extra producer path depth s ≡ push_all (extra_tail producer path depth) s
unfolding trailing_extra
trailing_extra-trace nil path depth s = refl
trailing_extra-trace (field _ _ _ rest) path depth s = trailing_extra-trace rest path depth _

choose_walk-trace :
    (mode : Mode) (f g h : Comparison → Comparison) (xs ys zs : List Diff) (s : Comparison)
    → ((r : Comparison) → f r ≡ push_all xs r)
    → ((r : Comparison) → g r ≡ push_all ys r)
    → ((r : Comparison) → h r ≡ push_all zs r)
    → choose_walk mode f g h s ≡ push_all (choose_diffs mode xs ys zs) s
unfolding choose_walk
choose_walk-trace mode f g h xs ys zs s p q r = elim (Bool-cases mode.by_pos) [
  | inl e ↦ rw (e, choose_walk) (p s)
  | inr e ↦ elim (Bool-cases mode.ordered) [
    | inl o ↦ rw (e, o, choose_walk) (q s)
    | inr o ↦ rw (e, o, choose_walk) (r s)
  ]
]

compare_by_name-trace :
    (walk : Comparison → Comparison) (matched : List Diff) (producer contract : Fields)
    (path : DiffPath) (depth : ℕ) (mode : Mode) (s : Comparison)
    → walk s ≡ push_all matched s
    → compare_by_name walk producer contract path depth mode s
      ≡ push_all (name_diffs matched producer contract path depth mode) s
unfolding compare_by_name
compare_by_name-trace walk matched producer contract path depth mode s h =
    elim (Option-cases (duplicate_field_name producer mode.ci)) [
      | inr (n, e) ↦ rw (e, match_option)
      | inl e ↦ elim (Option-cases (duplicate_field_name contract mode.ci)) [
        | inr (n, d) ↦ rw (e, d, match_option)
        | inl d ↦
            rw
              (
                e,
                d,
                h,
                match_option,
                push_all-append matched (extra_diffs contract producer path depth mode) s,
              )
              (extra_fields-trace contract producer path depth mode _)
      ]
    ]

mutual
  unfolding compare_shapes shape_diffs

  shapes-trace :
      (p c : TypeShape) (path : DiffPath) (depth : ℕ) (mode : Mode) (s : Comparison)
      → compare_shapes p c path depth mode s ≡ push_all (shape_diffs p c path depth mode) s
  shapes-trace (primitive p) (primitive c) path depth mode s = ground arith
  shapes-trace (optional p) (optional c) path depth mode s = shapes-trace p c path depth mode s
  shapes-trace (sequence p) (sequence c) path depth mode s = shapes-trace p c _ _ mode s
  shapes-trace (map pk pv) (map ck cv) path depth mode s =
      rw (push_all-append, shapes-trace pk ck _ _ mode s) (shapes-trace pv cv _ _ mode _)
  shapes-trace (struct pf) (struct cf) path depth mode s =
      choose_walk-trace mode _ _ _ _ _ _ s (λ r. position-trace pf cf path depth mode r)
        (λ r. ordered-trace pf cf path depth mode r)
        (λ r.
          compare_by_name-trace (λ q. name_walk pf cf path depth mode q) _ pf cf path depth mode r
            (name-trace pf cf path depth mode r))
  shapes-trace producer contract path depth mode s = refl

  name-trace :
      (p c : Fields) (path : DiffPath) (depth : ℕ) (mode : Mode) (s : Comparison)
      → name_walk p c path depth mode s ≡ push_all (matched_diffs p c path depth mode) s
  name-trace p nil path depth mode s = refl
  name-trace p (field name shape default rest) path depth mode s =
      elim (Option-cases (find_field_mode p name mode.ci)) [
        | inl e ↦ rw (e, match_option) (name-trace p rest path depth mode _)
        | inr (f, e) ↦
            rw (e, match_option, push_all-append, shapes-trace f.shape shape _ _ mode s)
              (name-trace p rest path depth mode _)
      ]

  ordered-trace :
      (p c : Fields) (path : DiffPath) (depth : ℕ) (mode : Mode) (s : Comparison)
      → ordered_walk p c path depth mode s ≡ push_all (ordered_diffs p c path depth mode) s
  ordered-trace (field pn ps pd pr) (field cn cs cd cr) path depth mode s =
      elim (Bool-cases (names_match mode.ci pn cn)) [
        | inl e ↦
            rw
              (
                e,
                name_mismatch,
                if◌then◌else◌,
                push_all-append (shape_diffs ps cs _ _ mode) (ordered_diffs pr cr path depth mode)
                    _,
                shapes-trace ps cs _ _ mode _,
              )
              (ordered-trace pr cr path depth mode _)
        | inr e ↦
            rw
              (
                e,
                name_mismatch,
                if◌then◌else◌,
                push_all-append (shape_diffs ps cs _ _ mode) (ordered_diffs pr cr path depth mode)
                    _,
                shapes-trace ps cs _ _ mode _,
              )
              (ordered-trace pr cr path depth mode _)
      ]
  ordered-trace nil contract path depth mode s = trailing_missing-trace contract path depth s
  ordered-trace producer nil path depth mode s = trailing_extra-trace producer path depth s

  position-trace :
      (p c : Fields) (path : DiffPath) (depth : ℕ) (mode : Mode) (s : Comparison)
      → position_walk p c path depth mode s ≡ push_all (position_diffs p c path depth mode) s
  position-trace (field pn ps pd pr) (field cn cs cd cr) path depth mode s =
      rw (push_all-append, shapes-trace ps cs _ _ mode s) (position-trace pr cr path depth mode _)
  position-trace nil contract path depth mode s = trailing_missing-trace contract path depth s
  position-trace producer nil path depth mode s = trailing_extra-trace producer path depth s

pub compare_fields-trace :
    (p c : Fields) (path : DiffPath) (depth : ℕ) (mode : Mode) (s : Comparison)
    → compare_fields p c path depth mode s ≡ push_all (field_diffs p c path depth mode) s
unfolding compare_fields
compare_fields-trace pf cf path depth mode s =
    choose_walk-trace mode _ _ _ _ _ _ s (λ r. position-trace pf cf path depth mode r)
      (λ r. ordered-trace pf cf path depth mode r)
      (λ r.
        compare_by_name-trace (λ q. name_walk pf cf path depth mode q) _ pf cf path depth mode r
          (name-trace pf cf path depth mode r))
