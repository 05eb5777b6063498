-- ===== src/Contracts/Compare.antt =====
-- crates/contracts/src/lib.rs: the traversal, `compare` and `conforms`. The loops over a slice are
-- recursions on the rest of the slice; `contract` is the side that every call makes smaller.
pub mod Trace
pub mod TraceRefines
pub mod Display
pub mod Aligned
pub mod Ordered
pub mod Lookup
pub mod Accepted
pub mod ByName
pub mod Policies
pub mod Evolution
use datacrate.Common.{
  ℕ, Bool, true, false, not, ◌&&◌, ◌||◌, Option, none, some, Text, text, if◌then◌else◌,
  match_option,
}
use datacrate.Contracts.Names.{str_eq, str_eq_ci}
use datacrate.Contracts.Shape.{
  TypeShape, primitive, optional, sequence, map, struct, Fields, nil, field, FieldShape,
  SchemaPolicy, Mode, policy_mode, shape_label, is_optional,
}
use datacrate.Contracts.Diff.{
  DiffPath, Diff, Comparison, empty_path, missing_diff, extra_diff, mismatch_diff_labeled,
  append_segment, single_segment, new_comparison, push,
}

-- How two field names are compared under a mode.
unfoldable pub names_match : Bool → Text → Text → Bool
names_match ci a b = if ci then str_eq_ci a b else str_eq a b

unfoldable pub find_field_mode : Fields → Text → Bool → Option FieldShape
find_field_mode nil name ci = none
find_field_mode (field n shape default rest) name ci =
    let later = find_field_mode rest name ci in
    if names_match ci n name
    then some (record { name = n; shape = shape; has_default = default })
    else later

-- The inner loop of `duplicate_field_name`: the first later field with the name of field `i`.
repeated_name : Text → Fields → Bool → Option Text
repeated_name name nil ci = none
repeated_name name (field n _ _ rest) ci =
    let later = repeated_name name rest ci in if names_match ci name n then some n else later

unfoldable pub duplicate_field_name : Fields → Bool → Option Text
unfolding repeated_name
duplicate_field_name nil ci = none
duplicate_field_name (field n _ _ rest) ci =
    let later = duplicate_field_name rest ci in
    match_option (repeated_name n rest ci) later (λ name. some name)

unfoldable mutual
  pub shape_eq : TypeShape → TypeShape → Bool
  shape_eq (primitive x) (primitive y) = str_eq x y
  shape_eq (optional x) (optional y) = shape_eq x y
  shape_eq (sequence x) (sequence y) = shape_eq x y
  shape_eq (map k1 v1) (map k2 v2) = shape_eq k1 k2 && shape_eq v1 v2
  shape_eq (struct f1) (struct f2) = fields_eq f1 f2
  shape_eq _ _ = false

  -- The test of the lengths and the loop: a list that ends first is the shorter one.
  pub fields_eq : Fields → Fields → Bool
  fields_eq nil nil = true
  fields_eq (field n1 s1 _ r1) (field n2 s2 _ r2) =
      let rest = fields_eq r1 r2 in
      if not (str_eq n1 n2) || not (shape_eq s1 s2) then false else rest
  fields_eq _ _ = false

-- The last loop of `compare_by_name`: producer fields that the contract does not name.
extra_fields : Fields → Fields → DiffPath → ℕ → Mode → Comparison → Comparison
extra_fields contract nil path depth mode s = s
extra_fields contract (field name _ _ rest) path depth mode s =
    extra_fields contract rest path depth mode (
      match_option (find_field_mode contract name mode.ci)
        (push s (extra_diff (append_segment path depth name).0)) (λ _. s))

-- The second and third loop of the index-aligned walks.
trailing_missing : Fields → DiffPath → ℕ → Comparison → Comparison
trailing_missing nil path depth s = s
trailing_missing (field name shape default rest) path depth s =
    trailing_missing rest path depth
      (push s (missing_diff (append_segment path depth name).0 (is_optional shape) default))

trailing_extra : Fields → DiffPath → ℕ → Comparison → Comparison
trailing_extra nil path depth s = s
trailing_extra (field name _ _ rest) path depth s =
    trailing_extra rest path depth (push s (extra_diff (append_segment path depth name).0))

-- A loop of the traversal, from the state in which it starts.
abbrev Walk : Type 0
Walk = Comparison → Comparison

duplicate_diff : DiffPath → ℕ → Text → Diff
duplicate_diff path depth name =
    mismatch_diff_labeled (append_segment path depth name).0 (text "unique field name") name

-- `compare_by_name` around its first loop, which is `contract_loop`.
compare_by_name : Walk → Fields → Fields → DiffPath → ℕ → Mode → Walk
unfolding duplicate_diff extra_fields
compare_by_name contract_loop producer contract path depth mode s =
    match_option (duplicate_field_name producer mode.ci)
      (match_option (duplicate_field_name contract mode.ci)
        (extra_fields contract producer path depth mode (contract_loop s))
        (λ name. push s (duplicate_diff path depth name)))
      (λ name. push s (duplicate_diff path depth name))

-- `compare_fields` chooses the walk by the mode.
choose_walk : Mode → Walk → Walk → Walk → Walk
choose_walk mode by_position ordered by_name s =
    if mode.by_pos then by_position s else if mode.ordered then ordered s else by_name s

name_mismatch : Mode → DiffPath → ℕ → Text → Text → Comparison → Comparison
name_mismatch mode field_path field_depth p_name c_name s =
    if not (names_match mode.ci p_name c_name)
    then push s (
        mismatch_diff_labeled (append_segment field_path field_depth (text "(name)")).0 c_name
          p_name)
    else s

unfoldable mutual
  unfolding name_mismatch trailing_missing trailing_extra compare_by_name choose_walk

  pub compare_shapes : TypeShape → TypeShape → DiffPath → ℕ → Mode → Comparison → Comparison
  compare_shapes (primitive p) (primitive c) path depth mode s =
      if not (str_eq p c) then push s (mismatch_diff_labeled path c p) else s
  compare_shapes (optional p) (optional c) path depth mode s = compare_shapes p c path depth mode s
  compare_shapes (sequence p) (sequence c) path depth mode s =
      let at = append_segment path depth (text "[]") in compare_shapes p c at.0 at.1 mode s
  compare_shapes (map pk pv) (map ck cv) path depth mode s =
      let key = append_segment path depth (text "<key>") in
      let value = append_segment path depth (text "<value>") in
      compare_shapes pv cv value.0 value.1 mode (compare_shapes pk ck key.0 key.1 mode s)
  compare_shapes (struct pf) (struct cf) path depth mode s =
      choose_walk mode (λ r. position_walk pf cf path depth mode r)
        (λ r. ordered_walk pf cf path depth mode r)
        (λ r. compare_by_name (λ q. name_walk pf cf path depth mode q) pf cf path depth mode r) s
  compare_shapes producer contract path depth mode s =
      push s (mismatch_diff_labeled path (shape_label contract) (shape_label producer))

  -- The first loop of `compare_by_name`.
  pub name_walk : Fields → Fields → DiffPath → ℕ → Mode → Comparison → Comparison
  name_walk producer nil path depth mode s = s
  name_walk producer (field name shape default rest) path depth mode s =
      let at = append_segment path depth name in
      name_walk producer rest path depth mode (
        match_option (find_field_mode producer name mode.ci)
          (push s (missing_diff at.0 (is_optional shape) default))
          (λ p. compare_shapes p.shape shape at.0 at.1 mode s))

  -- `compare_ordered`
  pub ordered_walk : Fields → Fields → DiffPath → ℕ → Mode → Comparison → Comparison
  ordered_walk (field pn ps _ pr) (field cn cs _ cr) path depth mode s =
      let at = append_segment path depth cn in
      ordered_walk pr cr path depth mode
        (compare_shapes ps cs at.0 at.1 mode (name_mismatch mode at.0 at.1 pn cn s))
  ordered_walk nil contract path depth mode s = trailing_missing contract path depth s
  ordered_walk producer nil path depth mode s = trailing_extra producer path depth s

  -- `compare_by_position`
  pub position_walk : Fields → Fields → DiffPath → ℕ → Mode → Comparison → Comparison
  position_walk (field pn ps _ pr) (field cn cs _ cr) path depth mode s =
      let at = append_segment path depth pn in
      position_walk pr cr path depth mode (compare_shapes ps cs at.0 at.1 mode s)
  position_walk nil contract path depth mode s = trailing_missing contract path depth s
  position_walk producer nil path depth mode s = trailing_extra producer path depth s

unfoldable pub compare_fields : Fields → Fields → DiffPath → ℕ → Mode → Comparison → Comparison
unfolding choose_walk compare_by_name
compare_fields producer contract path depth mode =
    choose_walk mode (position_walk producer contract path depth mode)
      (ordered_walk producer contract path depth mode)
      (compare_by_name (name_walk producer contract path depth mode) producer contract path depth
        mode)

compare_root : TypeShape → TypeShape → Mode → Comparison → Comparison
compare_root (struct pf) (struct cf) mode s = compare_fields pf cf empty_path 0 mode s
compare_root producer contract mode s =
    if not (shape_eq producer contract)
    then push s (
        mismatch_diff_labeled (single_segment (text "<root>")) (shape_label contract)
          (shape_label producer))
    else s

unfoldable pub compare : TypeShape → TypeShape → SchemaPolicy → Comparison
unfolding compare_root
compare producer contract policy =
    compare_root producer contract (policy_mode policy) (new_comparison policy)

unfoldable pub conforms : TypeShape → TypeShape → SchemaPolicy → Bool
unfolding compare
conforms producer contract policy = not (compare producer contract policy).rejected
