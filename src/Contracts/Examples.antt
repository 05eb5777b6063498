-- ===== src/Contracts/Examples.antt =====
-- The shapes of the tests of crates/contracts/src/lib.rs, and runs of the comparison on them.
use datacrate.Common.{
  ◌≡◌, ◌≢◌, ◌↔◌, inl, refl, Bool, true, false, [], none, some, Text, text, arith, take, select, any,
  if◌then◌else◌, ◌++◌,
}
use datacrate.Contracts.Names.{str_eq, str_eq_ci, lower, str_eq_ci_iff, to_ascii_lower}
use datacrate.Contracts.Shape.{
  TypeShape, primitive, optional, sequence, struct, Fields, nil, field, FieldShape, SchemaPolicy,
  policy_mode, exact, exact_ordered, exact_ordered_ci, exact_by_position, backward, forward,
  shape_label, is_optional,
}
use datacrate.Contracts.Diff.{
  max_diffs, rejects, new_comparison, push, no_diffs, push_shown, append_segment, missing_diff,
  extra_diff, mismatch_diff_labeled, optional_annotation,
}
use datacrate.Contracts.Compare.{
  conforms, compare, shape_eq, compare_fields, compare_shapes, names_match, find_field_mode,
  duplicate_field_name,
}
use datacrate.Contracts.Compare.Display.{IsShowing, all_diffs, compare_lem}
use datacrate.Contracts.Compare.Ordered.{rename, conforms-shape_eq, by_position_iff, ordered_ci_iff}
use datacrate.Contracts.Compare.Lookup.{IsUnique, Named, Contains, duplicate_iff, find_iff}
use datacrate.Contracts.Compare.Accepted.{Accepts}
use datacrate.Contracts.Compare.ByName.{by_name_iff}
use datacrate.Contracts.Compare.Policies.{conforms_self}
use datacrate.Contracts.Compare.Evolution.{
  backward_producer_adds, backward_contract_adds, backward_requires, forward-backward,
}
use datacrate.Contracts.Render.{check}
use datacrate.Contracts.Render.Message.{listed, check_lem}

abbrev i64 : TypeShape
i64 = primitive (text "i64")

abbrev string : TypeShape
string = primitive (text "String")

-- `WideProducer`
abbrev wide : Fields
wide =
    field (text "id") i64 false (
      field (text "name") string false (field (text "tags") (sequence (optional string)) false nil))

-- `BackwardContract`
abbrev noted : Fields
noted =
    field (text "id") i64 false
      (field (text "name") string false (field (text "note") (optional string) false nil))

-- `TagsWithoutOptional`
abbrev plain_tags : Fields
plain_tags =
    field (text "id") i64 false
      (field (text "name") string false (field (text "tags") (sequence string) false nil))

abbrev upper : Fields
upper = field (text "ID") i64 false (field (text "NAME") string false nil)

abbrev pair : Fields
pair = field (text "id") i64 false (field (text "name") string false nil)

abbrev swapped : Fields
swapped = field (text "name") string false (field (text "id") i64 false nil)

-- Names all that a run of the comparison computes with.
runs : TypeShape → TypeShape → SchemaPolicy → Bool
unfolding conforms compare_fields compare_shapes policy_mode new_comparison push push_shown no_diffs
    rejects names_match find_field_mode duplicate_field_name str_eq str_eq_ci mismatch_diff_labeled
    missing_diff extra_diff append_segment is_optional shape_label optional_annotation
runs = conforms

wide_runs :
    (conforms (struct wide) (struct noted) backward ≡ true)
    × (conforms (struct wide) (struct noted) exact ≡ false)
    × (conforms (struct wide) (struct plain_tags) exact ≡ false)
    × (conforms (struct swapped) (struct upper) exact ≡ true)
    × (conforms (struct pair) (struct swapped) exact_ordered ≡ false)
    × ((compare (struct pair) (struct swapped) exact_ordered).diffs.len ≡ 4)
unfolding runs
wide_runs = (refl, refl, refl, refl, refl, refl)

message_run : check (struct pair) (struct noted) backward ≡ none
unfolding check runs
message_run = refl

message_text :
    check (struct pair) (struct (field (text "note") string false nil)) backward
    ≡ some (text "producer schema does not conform to the contract: missing `note`")
unfolding check runs
message_text = refl

abbrev extra_name : Text
extra_name = text "age"

abbrev note : FieldShape
note = record { name = text "note"; shape = string; has_default = false }

abbrev strict_note : Fields
strict_note = field (text "note") string false pair

not_in_wide : ¬ Named false extra_name wide
not_in_wide h = ground arith

not_in_noted : ¬ Named false extra_name noted
not_in_noted h = ground arith

no_note : ¬ Named false (text "note") pair
no_note h = ground arith

wide-IsUnique : IsUnique true wide
unfolding to_ascii_lower
wide-IsUnique = (λ h. ground arith, (λ h. ground arith, (λ h. h, tt)))

wide-conforms : conforms (struct wide) (struct noted) backward ≡ true
wide-conforms = wide_runs.0

by_name_iff_example :
    (conforms (struct wide) (struct noted) backward ≡ true)
    ↔ Accepts backward (struct wide) (struct noted)
by_name_iff_example = by_name_iff backward wide noted tt

compare_lem_example :
    ((compare (struct wide) (struct noted) exact).rejected
      ≡ any (λ d. rejects d exact) (all_diffs (struct wide) (struct noted) exact))
    × IsShowing
        (take max_diffs
          (select (λ d. rejects d exact) (all_diffs (struct wide) (struct noted) exact)))
        (compare (struct wide) (struct noted) exact).diffs
compare_lem_example = compare_lem (struct wide) (struct noted) exact

check_lem_example : check (struct wide) (struct noted) exact ≡ (
    if conforms (struct wide) (struct noted) exact
    then none
    else some (
        text "producer schema does not conform to the contract: "
        ++ listed false (
            take max_diffs
              (select (λ d. rejects d exact) (all_diffs (struct wide) (struct noted) exact)))))
check_lem_example = check_lem (struct wide) (struct noted) exact

conforms-shape_eq_example :
    conforms (struct pair) (struct swapped) exact_ordered ≡ shape_eq (struct pair) (struct swapped)
conforms-shape_eq_example = conforms-shape_eq (struct pair) (struct swapped)

by_position_iff_test :
    (conforms (struct pair) (struct upper) exact_by_position ≡ true)
    ↔ (rename (λ _. []) (struct pair) ≡ rename (λ _. []) (struct upper))
by_position_iff_test = by_position_iff pair upper

ordered_ci_iff_test :
    (conforms (struct pair) (struct upper) exact_ordered_ci ≡ true)
    ↔ (rename lower (struct pair) ≡ rename lower (struct upper))
ordered_ci_iff_test = ordered_ci_iff pair upper

backward_producer_adds_test :
    conforms (struct (field extra_name i64 false wide)) (struct noted) backward ≡ true
backward_producer_adds_test =
    backward_producer_adds extra_name i64 false wide noted not_in_wide not_in_noted wide-conforms

backward_contract_adds_test :
    conforms (struct wide) (struct (field extra_name (optional i64) false noted)) backward ≡ true
unfolding is_optional
backward_contract_adds_test =
    backward_contract_adds extra_name (optional i64) false wide noted not_in_wide not_in_noted refl
      wide-conforms

backward_requires_test : conforms (struct pair) (struct strict_note) backward ≢ true
unfolding is_optional
backward_requires_test = backward_requires pair strict_note note (inl refl) no_note refl

pair_forward : conforms (struct pair) (struct noted) forward ≡ true
unfolding runs
pair_forward = refl

forward-backward_test : conforms (struct noted) (struct pair) backward ≡ true
forward-backward_test = forward-backward pair noted pair_forward

conforms_self_test : conforms (struct wide) (struct wide) backward ≡ true
conforms_self_test =
    conforms_self backward (struct wide)
      ((λ h. ground arith, (λ h. ground arith, (λ h. h, tt))), (tt, (tt, (tt, tt))))

duplicate_iff_test : (duplicate_field_name wide true ≡ none) ↔ IsUnique true wide
duplicate_iff_test = duplicate_iff wide true

find_iff_test :
    (find_field_mode wide (text "NAME") true
      ≡ some (record { name = text "name"; shape = string; has_default = false }))
    ↔ (Contains wide (record { name = text "name"; shape = string; has_default = false })
        × (lower (text "name") ≡ lower (text "NAME")))
find_iff_test = find_iff wide (text "NAME") true _ wide-IsUnique

str_eq_ci_iff_example :
    (str_eq_ci (text "Id") (text "iD") ≡ true) ↔ (lower (text "Id") ≡ lower (text "iD"))
str_eq_ci_iff_example = str_eq_ci_iff (text "Id") (text "iD")
