-- ===== src/Contracts/Render.antt =====
-- crates/contracts/src/lib.rs: the pieces of the panic message, and `SchemaConforms::CHECK`.
pub mod Message
use datacrate.Common.{
  ℕ, zero, suc, ◌+◌, Bool, true, false, not, ◌&&◌, [], ◌∷◌, ◌++◌, Option, none, some, Text, text,
  ltb, if◌then◌else◌, get_or,
}
use datacrate.Contracts.Shape.{TypeShape, SchemaPolicy}
use datacrate.Contracts.Diff.{
  DiffKind, missing, extra, mismatch, Diff, Diffs, Comparison, max_diffs,
}
use datacrate.Contracts.Compare.{compare}

-- `str::is_empty`
pub is_empty : Text → Bool
is_empty [] = true
is_empty (_ ∷ _) = false

-- `diffs.items[i]`; every caller's `i` is one of the slots.
slot : Diffs → ℕ → Option Diff
slot ds i = get_or ds.items i none

pub sep : Text → Text
unfolding is_empty
sep segment = if is_empty segment then text "" else text "."

pub kind_label : DiffKind → Text
kind_label missing = text "missing `"
kind_label extra = text "extra `"
kind_label mismatch = text "mismatch `"

diff_kind_label : Diffs → ℕ → Text
unfolding slot kind_label
diff_kind_label ds i = elim (slot ds i) [ some d ↦ kind_label d.kind | none ↦ text "" ]

is_some : Option Diff → Bool
is_some (some _) = true
is_some none = false

diff_lead_sep : Diffs → ℕ → Text
unfolding slot is_some
diff_lead_sep ds i = if ltb 0 i && is_some (slot ds i) then text "; " else text ""

diff_seg : Diffs → ℕ → ℕ → Text
unfolding slot
diff_seg ds i j = elim (slot ds i) [ some d ↦ get_or d.path j (text "") | none ↦ text "" ]

diff_seg_sep : Diffs → ℕ → ℕ → Text
unfolding sep diff_seg
diff_seg_sep ds i j = sep (diff_seg ds i j)

diff_close : Diffs → ℕ → Text
unfolding slot
diff_close ds i = elim (slot ds i) [ some _ ↦ text "`" | none ↦ text "" ]

diff_annotation : Diffs → ℕ → Text
unfolding slot
diff_annotation ds i = elim (slot ds i) [ some d ↦ d.annotation | none ↦ text "" ]

-- A label, where the difference carries `expected`.
if_labelled : Option Diff → Text → Text
unfolding is_empty
if_labelled (some d) label = if not (is_empty d.expected) then label else text ""
if_labelled none label = text ""

expected_open : Diffs → ℕ → Text
unfolding slot if_labelled
expected_open ds i = if_labelled (slot ds i) (text " (expected `")

diff_expected : Diffs → ℕ → Text
unfolding slot
diff_expected ds i = elim (slot ds i) [ some d ↦ d.expected | none ↦ text "" ]

expected_mid : Diffs → ℕ → Text
unfolding slot if_labelled
expected_mid ds i = if_labelled (slot ds i) (text "`, found `")

diff_found : Diffs → ℕ → Text
unfolding slot
diff_found ds i = elim (slot ds i) [ some d ↦ d.found | none ↦ text "" ]

expected_close : Diffs → ℕ → Text
unfolding slot if_labelled
expected_close ds i = if_labelled (slot ds i) (text "`)")

-- The segments `j` and on of a path, `n` of them, each behind its separator.
later_segments : Diffs → ℕ → ℕ → ℕ → Text
unfolding diff_seg_sep
later_segments ds i zero j = []
later_segments ds i (suc n) j =
    diff_seg_sep ds i j ++ (diff_seg ds i j ++ later_segments ds i n (suc j))

-- The argument block of one slot.
render_slot : Diffs → ℕ → Text
unfolding diff_lead_sep diff_kind_label later_segments diff_close diff_annotation expected_open
    diff_expected expected_mid diff_found expected_close
render_slot ds i =
    diff_lead_sep ds i
    ++ (diff_kind_label ds i
        ++ (diff_seg ds i 0
            ++ (later_segments ds i 7 1
                ++ (diff_close ds i
                    ++ (diff_annotation ds i
                        ++ (expected_open ds i
                            ++ (diff_expected ds i
                                ++ (expected_mid ds i
                                    ++ (diff_found ds i ++ expected_close ds i)))))))))

-- `seq!(I in 0..128 { … })`: `n` slots from `i`.
render_slots : Diffs → ℕ → ℕ → Text
unfolding render_slot
render_slots ds zero i = []
render_slots ds (suc n) i = render_slot ds i ++ render_slots ds n (suc i)

-- The message of the panic; `none` is a build that goes on.
unfoldable pub check : TypeShape → TypeShape → SchemaPolicy → Option Text
unfolding render_slots
check producer contract policy =
    let comparison = compare producer contract policy in
    if comparison.rejected
    then some (
        text "producer schema does not conform to the contract: "
        ++ render_slots comparison.diffs max_diffs 0)
    else none
