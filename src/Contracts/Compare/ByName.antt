-- ===== src/Contracts/Compare/ByName.antt =====
-- What the by-name policies of crates/contracts/src/lib.rs (`Exact`, `ExactUnorderedCI`, `Backward`,
-- `Forward`) accept, stated by membership and independently of paths, display and traversal order.
use datacrate.Common.{
  ℕ, ◌≡◌, ◌↔◌, inl, inr, refl, Bool, true, false, not, none, some, arith, if◌then◌else◌, Bool-cases,
  Option-cases, match_option, any,
}
use datacrate.Contracts.Names.{str_eq, str_eq_iff}
use datacrate.Contracts.Shape.{
  TypeShape, primitive, optional, sequence, map, struct, Fields, nil, field, SchemaPolicy,
  policy_mode,
}
use datacrate.Contracts.Diff.{DiffPath, append_segment, rejects, empty_path}
use datacrate.Contracts.Compare.{find_field_mode, conforms}
use datacrate.Contracts.Compare.Trace.{shape_diffs, matched_diffs}
use datacrate.Contracts.Compare.Display.{root_diffs, all_diffs, conforms-any}
use datacrate.Contracts.Compare.Lookup.{
  IsUnique, find-some, find-none, find-of_not, find-of_Contains,
}
use datacrate.Contracts.Compare.Accepted.{
  IsByName, folds_case, Accepts, Covers, Quiet, Quiet-mismatch, Quiet-missing_iff, Quiet-append_iff,
  choose_by_name, by_name-ci, duplicates_sound, duplicates_complete,
}

not_iff : (b : Bool) → (not b ≡ true) ↔ (b ≡ false)
not_iff b = ground arith

mutual
  unfolding shape_diffs

  sound :
      (policy : SchemaPolicy) (p c : TypeShape) (path : DiffPath) (depth : ℕ)
      → IsByName policy
      → Quiet policy (shape_diffs p c path depth (policy_mode policy))
      → Accepts policy p c
  sound policy (primitive p) (primitive c) path depth b q = elim (Bool-cases (str_eq p c)) [
    | inl e ↦ (str_eq_iff p c).0 e
    | inr e ↦ absurd (Quiet-mismatch policy path c p b (rw (e, if◌then◌else◌) at q))
  ]
  sound policy (optional p) (optional c) path depth b q = sound policy p c path depth b q
  sound policy (sequence p) (sequence c) path depth b q = sound policy p c _ _ b q
  sound policy (map pk pv) (map ck cv) path depth b q =
      let parts =
        (Quiet-append_iff policy (shape_diffs pk ck _ _ (policy_mode policy))
            (shape_diffs pv cv _ _ (policy_mode policy))).0
          q in
      (sound policy pk ck _ _ b parts.0, sound policy pv cv _ _ b parts.1)
  sound policy (struct p) (struct c) path depth b q =
      let (up, uc, m, k) =
        duplicates_sound policy (matched_diffs p c path depth (policy_mode policy)) p c path depth b
          (rw (choose_by_name policy _ _ _ b) at q) in
      (up, uc, Covers-sound policy p c path depth b m, k)
  sound policy p c path depth b q = absurd (Quiet-mismatch policy path _ _ b q)

  Covers-sound :
      (policy : SchemaPolicy) (p c : Fields) (path : DiffPath) (depth : ℕ)
      → IsByName policy
      → Quiet policy (matched_diffs p c path depth (policy_mode policy))
      → Covers policy p c
  Covers-sound policy p nil path depth b q = tt
  Covers-sound policy p (field n s d rest) path depth b q =
      let at = append_segment path depth n in
      let ci = (policy_mode policy).ci in
      let parts =
        (Quiet-append_iff policy (match_option (find_field_mode p n ci) _ _)
            (matched_diffs p rest path depth (policy_mode policy))).0
          q in
      (
        elim (Option-cases (find_field_mode p n ci)) [
          | inl e ↦ inr (
            rw (← by_name-ci policy b) (find-none p n ci e),
            (Quiet-missing_iff policy at.0 s d b).0 (rw (e, match_option) at parts.0),
          )
          | inr (f, e) ↦
              let r = find-some p n ci f e in
              inl (
                f,
                r.0,
                rw (by_name-ci policy b) at r.1,
                sound policy f.shape s at.0 at.1 b (rw (e, match_option) at parts.0),
              )
        ],
        Covers-sound policy p rest path depth b parts.1,
      )

mutual
  unfolding shape_diffs

  complete :
      (policy : SchemaPolicy) (p c : TypeShape) (path : DiffPath) (depth : ℕ)
      → IsByName policy
      → Accepts policy p c
      → Quiet policy (shape_diffs p c path depth (policy_mode policy))
  complete policy (primitive p) (primitive c) path depth b h =
      rw ((str_eq_iff p c).1 h, if◌then◌else◌)
  complete policy (optional p) (optional c) path depth b h = complete policy p c path depth b h
  complete policy (sequence p) (sequence c) path depth b h = complete policy p c _ _ b h
  complete policy (map pk pv) (map ck cv) path depth b h =
      (Quiet-append_iff policy (shape_diffs pk ck _ _ (policy_mode policy))
          (shape_diffs pv cv _ _ (policy_mode policy))).1
        (complete policy pk ck _ _ b h.0, complete policy pv cv _ _ b h.1)
  complete policy (struct p) (struct c) path depth b h =
      let (up, uc, m, k) = h in
      rw (choose_by_name policy _ _ _ b) (
        duplicates_complete policy (matched_diffs p c path depth (policy_mode policy)) p c path
          depth b up uc (Covers-complete policy p c path depth b up m) k)
  complete policy p c path depth b h = absurd h

  Covers-complete :
      (policy : SchemaPolicy) (p c : Fields) (path : DiffPath) (depth : ℕ)
      → IsByName policy
      → IsUnique (folds_case policy) p
      → Covers policy p c
      → Quiet policy (matched_diffs p c path depth (policy_mode policy))
  Covers-complete policy p nil path depth b u h = refl
  Covers-complete policy p (field n s d rest) path depth b u h =
      let at = append_segment path depth n in
      let ci = (policy_mode policy).ci in
      let e = by_name-ci policy b in
      (Quiet-append_iff policy (match_option (find_field_mode p n ci) _ _)
          (matched_diffs p rest path depth (policy_mode policy))).1
        (
          elim h.0 [
            | inl (f, c, k, a) ↦
                let found : find_field_mode p n ci ≡ some f =
                  find-of_Contains p n ci f (rw e u) c (rw e k) in
                rw (found, match_option) (complete policy f.shape s at.0 at.1 b a)
            | inr (miss, omit) ↦
                let gone : find_field_mode p n ci ≡ none = find-of_not p n ci (rw e miss) in
                rw (gone, match_option) ((Quiet-missing_iff policy at.0 s d b).1 omit)
          ],
          Covers-complete policy p rest path depth b u h.1,
        )

-- A by-name policy accepts two structs exactly when names are unique on both sides, each contract
-- field is met by the producer's field of that name or may be left out, and each producer field is
-- known to the contract or may be added; the same at every depth.
pub by_name_iff :
    (policy : SchemaPolicy) (p c : Fields)
    → IsByName policy
    → (conforms (struct p) (struct c) policy ≡ true) ↔ Accepts policy (struct p) (struct c)
unfolding root_diffs shape_diffs
by_name_iff policy p c b =
    let ds = all_diffs (struct p) (struct c) policy in
    let quiet : (conforms (struct p) (struct c) policy ≡ true) ↔ Quiet policy ds =
      rw (conforms-any (struct p) (struct c) policy) (not_iff (any (λ d. rejects d policy) ds)) in
    (
      λ h. sound policy (struct p) (struct c) empty_path 0 b (quiet.0 h),
      λ a. quiet.1 (complete policy (struct p) (struct c) empty_path 0 b a),
    )
