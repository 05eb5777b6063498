-- ===== src/Contracts/Compare/Display.antt =====
-- The verdict and the bounded display of `Comparison` against the whole trace.
use datacrate.Common.{
  ◌-◌, ◌≤◌, ◌<◌, ◌≡◌, refl, ap, sym, subst, true, false, not, ◌||◌, List, [], ◌∷◌, ◌++◌, none, some,
  map, text, arith, append_assoc, append-nil, if◌then◌else◌, Bool-cases, inl, inr, length,
  length-append, take, select, any, ltb, replicate, set, set-append, lt→ltb, take-append_full,
  take_all, suc,
}
use mathlib.Core.List.{map-append}
use native.Mathlib.Decide.{dec_lt}
use datacrate.Contracts.Shape.{TypeShape, struct, SchemaPolicy, Mode, policy_mode, shape_label}
use datacrate.Contracts.Diff.{
  Diff, Diffs, Comparison, mismatch_diff_labeled, empty_path, single_segment, max_diffs, no_diffs,
  push_shown, rejects, new_comparison, push,
}
use datacrate.Contracts.Compare.{shape_eq, compare_root, compare, conforms}
use datacrate.Contracts.Compare.Trace.{field_diffs}
use datacrate.Contracts.Compare.TraceRefines.{push_all, compare_fields-trace}

unfoldable pub root_diffs : TypeShape → TypeShape → Mode → List Diff
root_diffs (struct pf) (struct cf) mode = field_diffs pf cf empty_path 0 mode
root_diffs producer contract mode =
    if not (shape_eq producer contract)
    then mismatch_diff_labeled (single_segment (text "<root>")) (shape_label contract)
        (shape_label producer)
      ∷ []
    else []

-- Every difference between two shapes, under the traversal that the policy selects.
abbrev pub all_diffs : TypeShape → TypeShape → SchemaPolicy → List Diff
all_diffs producer contract policy = root_diffs producer contract (policy_mode policy)

compare_root-trace :
    (p c : TypeShape) (mode : Mode) (s : Comparison)
    → compare_root p c mode s ≡ push_all (root_diffs p c mode) s
unfolding compare_root root_diffs
compare_root-trace (struct pf) (struct cf) mode s = compare_fields-trace pf cf empty_path 0 mode s
compare_root-trace p c mode s = ground arith

pub compare-trace :
    (p c : TypeShape) (policy : SchemaPolicy)
    → compare p c policy ≡ push_all (all_diffs p c policy) (new_comparison policy)
unfolding compare
compare-trace p c policy = compare_root-trace p c (policy_mode policy) (new_comparison policy)

-- The slots hold these differences from the front, and nothing behind them.
pub record IsShowing (xs : List Diff) (ds : Diffs) : Type 0 where
  pub counted : ds.len ≡ length xs
  pub stored : ds.items ≡ map some xs ++ replicate (max_diffs - length xs) none
  pub bounded : length xs ≤ max_diffs

slots-push :
    (xs : List Diff) (d : Diff)
    → length xs < max_diffs
    → set (map some xs ++ replicate (max_diffs - length xs) none) (length xs) (some d)
      ≡ map some (xs ++ d ∷ []) ++ replicate (max_diffs - length (xs ++ d ∷ [])) none
slots-push xs d lt =
    let before : max_diffs - length xs ≡ suc (127 - length xs) = omega arith in
    let after : max_diffs - length (xs ++ d ∷ []) ≡ 127 - length xs =
      omega (arith, length-append xs (d ∷ [])) in
    rw (
      before,
      after,
      set-append some xs none (some d) (replicate (127 - length xs) none),
      map-append,
      append_assoc,
    )

push_shown-IsShowing :
    (xs : List Diff) (ds : Diffs) (d : Diff)
    → IsShowing xs ds
    → length xs < max_diffs
    → IsShowing (xs ++ d ∷ []) (push_shown ds d)
unfolding push_shown
push_shown-IsShowing xs ds d h lt =
    let room : ltb ds.len max_diffs ≡ true = lt→ltb _ _ (omega (arith, h.counted)) in
    rw (room, if◌then◌else◌)
      (record {
        counted = omega (arith, h.counted, length-append xs (d ∷ []));
        stored = rw (h.stored, h.counted) (slots-push xs d lt);
        bounded = omega (arith, length-append xs (d ∷ []));
      })

push_shown_full :
    (xs : List Diff) (ds : Diffs) (d : Diff)
    → IsShowing xs ds
    → length xs ≡ max_diffs
    → push_shown ds d ≡ ds
unfolding push_shown
push_shown_full xs ds d h full = ground arith

push_all-policy : (xs : List Diff) (s : Comparison) → (push_all xs s).policy ≡ s.policy
unfolding push
push_all-policy [] s = refl
push_all-policy (x ∷ xs) s = ground (arith, push_all-policy xs (push s x))

push_all-rejected :
    (xs : List Diff) (s : Comparison)
    → (push_all xs s).rejected ≡ s.rejected || any (λ d. rejects d s.policy) xs
unfolding push
push_all-rejected [] s = ground arith
push_all-rejected (x ∷ xs) s = ground (arith, push_all-rejected xs (push s x))

push_rejected :
    (s : Comparison) (d : Diff)
    → rejects d s.policy ≡ true
    → push s d ≡ record s { rejected = true; diffs = push_shown s.diffs d }
unfolding push
push_rejected s d e = rw (e, if◌then◌else◌)

push_tolerated : (s : Comparison) (d : Diff) → rejects d s.policy ≡ false → push s d ≡ s
unfolding push
push_tolerated s d e = rw (e, if◌then◌else◌)

push_all-IsShowing :
    (ds : List Diff) (s : Comparison) (xs : List Diff)
    → IsShowing xs s.diffs
    → IsShowing (take max_diffs (xs ++ select (λ d. rejects d s.policy) ds)) (push_all ds s).diffs
push_all-IsShowing [] s xs h = rw (append-nil xs, take_all max_diffs xs h.bounded) h
push_all-IsShowing (d ∷ ds) s xs h =
    let rest = select (λ d'. rejects d' s.policy) ds in
    let pushed = record s { rejected = true; diffs = push_shown s.diffs d } in
    elim (Bool-cases (rejects d s.policy)) [
      | inr e ↦
          rw (e, if◌then◌else◌) (moved rest s (push_tolerated s d e) (push_all-IsShowing ds s xs h))
      | inl e ↦ elim (dec_lt (length xs) max_diffs) [
        | yes lt ↦
            rw (e, if◌then◌else◌)
              (moved (d ∷ rest) pushed (push_rejected s d e) (
                rw (append_assoc xs (d ∷ []) rest) at (
                  push_all-IsShowing ds pushed (xs ++ d ∷ [])
                    (push_shown-IsShowing xs s.diffs d h lt))))
        | no ge ↦
            let full : length xs ≡ max_diffs = omega (arith, h.bounded) in
            let same : IsShowing xs pushed.diffs = rw (push_shown_full xs s.diffs d h full) h in
            rw (e, if◌then◌else◌)
              (moved (d ∷ rest) pushed (push_rejected s d e) (
                rw (take-append_full max_diffs xs (d ∷ rest) full) (
                  rw (take-append_full max_diffs xs rest full) at
                    (push_all-IsShowing ds pushed xs same))))
      ]
    ]
  where
    moved :
        (ys : List Diff) (t : Comparison)
        → push s d ≡ t
        → IsShowing (take max_diffs (xs ++ ys)) (push_all ds t).diffs
        → IsShowing (take max_diffs (xs ++ ys)) (push_all ds (push s d)).diffs
    moved ys t e = subst (λ t. IsShowing (take max_diffs (xs ++ ys)) (push_all ds t).diffs) (sym e)

no_diffs-IsShowing : IsShowing [] no_diffs
unfolding no_diffs
no_diffs-IsShowing = record { counted = refl; stored = refl; bounded = omega arith }

-- The verdict counts every difference that the policy rejects, and the slots hold the first 128
-- of those, in traversal order.
pub compare_lem :
    (p c : TypeShape) (policy : SchemaPolicy)
    → ((compare p c policy).rejected ≡ any (λ d. rejects d policy) (all_diffs p c policy))
      × IsShowing
          (take max_diffs (select (λ d. rejects d policy) (all_diffs p c policy)))
          (compare p c policy).diffs
unfolding new_comparison
compare_lem p c policy = rw (compare-trace p c policy) (
  push_all-rejected (all_diffs p c policy) (new_comparison policy),
  push_all-IsShowing (all_diffs p c policy) (new_comparison policy) [] no_diffs-IsShowing,
)

pub conforms-any :
    (p c : TypeShape) (policy : SchemaPolicy)
    → conforms p c policy ≡ not (any (λ d. rejects d policy) (all_diffs p c policy))
unfolding conforms
conforms-any p c policy = ap not (compare_lem p c policy).0
