-- ===== src/Contracts/Compare/Trace.antt =====
-- The traversal of crates/contracts/src/lib.rs seen as the list of all differences it meets, in
-- order, before policy and display capacity apply.
use datacrate.Common.{ℕ, not, List, [], ◌∷◌, ◌++◌, text, if◌then◌else◌, match_option}
use datacrate.Contracts.Names.{str_eq}
use datacrate.Contracts.Shape.{
  TypeShape, primitive, optional, sequence, map, struct, Fields, nil, field, Mode, shape_label,
  is_optional,
}
use datacrate.Contracts.Diff.{
  DiffPath, Diff, missing_diff, extra_diff, mismatch_diff_labeled, append_segment,
}
use datacrate.Contracts.Compare.{names_match, find_field_mode, duplicate_field_name, duplicate_diff}

abbrev pub extra_diffs : Fields → Fields → DiffPath → ℕ → Mode → List Diff
extra_diffs contract nil path depth mode = []
extra_diffs contract (field name _ _ rest) path depth mode =
    match_option (find_field_mode contract name mode.ci)
      (extra_diff (append_segment path depth name).0 ∷ []) (λ _. [])
    ++ extra_diffs contract rest path depth mode

abbrev pub missing_tail : Fields → DiffPath → ℕ → List Diff
missing_tail nil path depth = []
missing_tail (field name shape default rest) path depth =
    missing_diff (append_segment path depth name).0 (is_optional shape) default
    ∷ missing_tail rest path depth

abbrev pub extra_tail : Fields → DiffPath → ℕ → List Diff
extra_tail nil path depth = []
extra_tail (field name _ _ rest) path depth =
    extra_diff (append_segment path depth name).0 ∷ extra_tail rest path depth

abbrev pub name_diffs : List Diff → Fields → Fields → DiffPath → ℕ → Mode → List Diff
unfolding duplicate_diff
name_diffs matched producer contract path depth mode =
    match_option (duplicate_field_name producer mode.ci)
      (match_option (duplicate_field_name contract mode.ci)
        (matched ++ extra_diffs contract producer path depth mode)
        (λ name. duplicate_diff path depth name ∷ []))
      (λ name. duplicate_diff path depth name ∷ [])

abbrev pub choose_diffs : Mode → List Diff → List Diff → List Diff → List Diff
choose_diffs mode by_position ordered by_name =
    if mode.by_pos then by_position else if mode.ordered then ordered else by_name

unfoldable mutual
  pub shape_diffs : TypeShape → TypeShape → DiffPath → ℕ → Mode → List Diff
  shape_diffs (primitive p) (primitive c) path depth mode =
      if not (str_eq p c) then mismatch_diff_labeled path c p ∷ [] else []
  shape_diffs (optional p) (optional c) path depth mode = shape_diffs p c path depth mode
  shape_diffs (sequence p) (sequence c) path depth mode =
      let at = append_segment path depth (text "[]") in shape_diffs p c at.0 at.1 mode
  shape_diffs (map pk pv) (map ck cv) path depth mode =
      let key = append_segment path depth (text "<key>") in
      let value = append_segment path depth (text "<value>") in
      shape_diffs pk ck key.0 key.1 mode ++ shape_diffs pv cv value.0 value.1 mode
  shape_diffs (struct pf) (struct cf) path depth mode =
      choose_diffs mode (position_diffs pf cf path depth mode) (ordered_diffs pf cf path depth mode)
        (name_diffs (matched_diffs pf cf path depth mode) pf cf path depth mode)
  shape_diffs producer contract path depth mode =
      mismatch_diff_labeled path (shape_label contract) (shape_label producer) ∷ []

  pub matched_diffs : Fields → Fields → DiffPath → ℕ → Mode → List Diff
  matched_diffs producer nil path depth mode = []
  matched_diffs producer (field name shape default rest) path depth mode =
      let at = append_segment path depth name in
      match_option (find_field_mode producer name mode.ci)
        (missing_diff at.0 (is_optional shape) default ∷ [])
        (λ p. shape_diffs p.shape shape at.0 at.1 mode)
      ++ matched_diffs producer rest path depth mode

  pub ordered_diffs : Fields → Fields → DiffPath → ℕ → Mode → List Diff
  ordered_diffs (field pn ps _ pr) (field cn cs _ cr) path depth mode =
      let at = append_segment path depth cn in
      (if not (names_match mode.ci pn cn)
        then mismatch_diff_labeled (append_segment at.0 at.1 (text "(name)")).0 cn pn ∷ []
        else [])
      ++ (shape_diffs ps cs at.0 at.1 mode ++ ordered_diffs pr cr path depth mode)
  ordered_diffs nil contract path depth mode = missing_tail contract path depth
  ordered_diffs producer nil path depth mode = extra_tail producer path depth

  pub position_diffs : Fields → Fields → DiffPath → ℕ → Mode → List Diff
  position_diffs (field pn ps _ pr) (field cn cs _ cr) path depth mode =
      let at = append_segment path depth pn in
      shape_diffs ps cs at.0 at.1 mode ++ position_diffs pr cr path depth mode
  position_diffs nil contract path depth mode = missing_tail contract path depth
  position_diffs producer nil path depth mode = extra_tail producer path depth

abbrev pub field_diffs : Fields → Fields → DiffPath → ℕ → Mode → List Diff
field_diffs pf cf path depth mode =
    choose_diffs mode (position_diffs pf cf path depth mode) (ordered_diffs pf cf path depth mode)
      (name_diffs (matched_diffs pf cf path depth mode) pf cf path depth mode)
