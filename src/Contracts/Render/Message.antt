-- ===== src/Contracts/Render/Message.antt =====
-- What the message of `SchemaConforms::CHECK` says, as a text built from the differences.
use datacrate.Common.{
  ℕ, zero, suc, ◌+◌, ◌-◌, ◌≡◌, refl, Bool, true, false, not, ◌&&◌, List, [], ◌∷◌, ◌++◌, map, Option,
  none, some, Text, text, ltb, arith, if◌then◌else◌, get_or, length, length-append, take, select,
  replicate, append_assoc, append-nil,
}
use datacrate.Contracts.Shape.{TypeShape, SchemaPolicy}
use datacrate.Contracts.Diff.{DiffPath, Diff, Diffs, max_diffs, rejects}
use datacrate.Contracts.Compare.{compare, conforms}
use datacrate.Contracts.Compare.Display.{IsShowing, all_diffs, compare_lem}
use datacrate.Contracts.Render.{
  is_empty, slot, sep, kind_label, later_segments, diff_seg, render_slot, render_slots, check,
  if_labelled, diff_lead_sep, is_some, diff_kind_label, diff_close, diff_annotation, expected_open,
  diff_expected, expected_mid, diff_found, expected_close,
}

-- Segments behind the first, each after a dot unless it is empty.
abbrev dotted : DiffPath → ℕ → ℕ → Text
dotted path zero j = []
dotted path (suc n) j =
    let segment = get_or path j (text "") in sep segment ++ (segment ++ dotted path n (suc j))

abbrev labels : Text → Text → Text
labels expected found =
    if not (is_empty expected)
    then text " (expected `" ++ (expected ++ (text "`, found `" ++ (found ++ text "`)")))
    else found

-- One difference in words.
abbrev pub describe : Diff → Text
describe d =
    kind_label d.kind
    ++ (get_or d.path 0 (text "")
        ++ (dotted d.path 7 1 ++ (text "`" ++ (d.annotation ++ labels d.expected d.found))))

-- The differences in words, each but the first after a separator.
abbrev pub listed : Bool → List Diff → Text
listed later [] = []
listed later (d ∷ ds) = (if later then text "; " else text "") ++ (describe d ++ listed true ds)

get_or-append :
    (pre : List (Option Diff)) (x : Option Diff) (rest : List (Option Diff))
    → get_or (pre ++ x ∷ rest) (length pre) none ≡ x
get_or-append [] x rest = refl
get_or-append (p ∷ pre) x rest = get_or-append pre x rest

and_true : (b : Bool) → b && true ≡ b
and_true b = ground arith

and_false : (b : Bool) → b && false ≡ false
and_false b = ground arith

segments_some :
    (ds : Diffs) (i : ℕ) (d : Diff) (n j : ℕ)
    → slot ds i ≡ some d
    → later_segments ds i n j ≡ dotted d.path n j
unfolding later_segments
segments_some ds i d zero j h = refl
segments_some ds i d (suc n) j h = rw (h, diff_seg, segments_some ds i d n (suc j) h)

segments_none : (ds : Diffs) (i : ℕ) (n j : ℕ) → slot ds i ≡ none → later_segments ds i n j ≡ []
unfolding later_segments
segments_none ds i zero j h = refl
segments_none ds i (suc n) j h = rw (h, diff_seg) (segments_none ds i n (suc j) h)

-- The clause that opens with `expected`, piece by piece.
labels-pieces :
    (d : Diff)
    → if_labelled (some d) (text " (expected `")
        ++ (d.expected
            ++ (if_labelled (some d) (text "`, found `")
                ++ (d.found ++ if_labelled (some d) (text "`)"))))
      ≡ labels d.expected d.found
unfolding if_labelled is_empty
labels-pieces d = go d.expected refl
  where
    go :
        (e : Text)
        → d.expected ≡ e
        → if_labelled (some d) (text " (expected `")
            ++ (d.expected
                ++ (if_labelled (some d) (text "`, found `")
                    ++ (d.found ++ if_labelled (some d) (text "`)"))))
          ≡ labels d.expected d.found
    go [] h = rw (h, if_labelled) (append-nil d.found)
    go (x ∷ e) h = rw (h, if_labelled)

slot-some :
    (ds : Diffs) (i : ℕ) (d : Diff)
    → slot ds i ≡ some d
    → render_slot ds i ≡ (if ltb 0 i then text "; " else text "") ++ describe d
unfolding render_slot
slot-some ds i d h =
    rw
      (
        segments_some ds i d 7 1 h,
        h,
        diff_lead_sep,
        is_some,
        diff_kind_label,
        diff_seg,
        diff_close,
        diff_annotation,
        expected_open,
        diff_expected,
        expected_mid,
        diff_found,
        expected_close,
      )
      (rw (labels-pieces d, and_true (ltb 0 i)))

slot-none : (ds : Diffs) (i : ℕ) → slot ds i ≡ none → render_slot ds i ≡ []
unfolding render_slot
slot-none ds i h =
    rw
      (
        segments_none ds i 7 1 h,
        h,
        diff_lead_sep,
        is_some,
        diff_kind_label,
        diff_seg,
        diff_close,
        diff_annotation,
        expected_open,
        diff_expected,
        expected_mid,
        diff_found,
        expected_close,
      )
      (rw (and_false (ltb 0 i)))

-- The slots from `n` on, where the items are a prefix of that length, some differences, and
-- empty slots.
slots-listed :
    (ds : Diffs) (pre : List (Option Diff)) (xs : List Diff) (k m n : ℕ)
    → ds.items ≡ pre ++ (map some xs ++ replicate k none)
    → m ≡ length xs + k
    → n ≡ length pre
    → render_slots ds m n ≡ listed (ltb 0 n) xs
unfolding render_slots slot
slots-listed ds pre [] k zero n h e l = refl
slots-listed ds pre (x ∷ xs) k zero n h e l = absurd (omega arith)
slots-listed ds pre [] zero (suc m) n h e l = absurd (omega arith)
slots-listed ds pre [] (suc k) (suc m) n h e l =
    let here : slot ds n ≡ none = rw (h, l) (get_or-append pre none (replicate k none)) in
    let there =
      slots-listed ds (pre ++ none ∷ []) [] k m (suc n)
        (rw (append_assoc pre (none ∷ []) (replicate k none)) h) (omega arith)
        (omega (arith, length-append pre (none ∷ []))) in
    rw (slot-none ds n here) there
slots-listed ds pre (x ∷ xs) k (suc m) n h e l =
    let here : slot ds n ≡ some x =
      rw (h, l) (get_or-append pre (some x) (map some xs ++ replicate k none)) in
    let there =
      slots-listed ds (pre ++ some x ∷ []) xs k m (suc n)
        (rw (append_assoc pre (some x ∷ []) (map some xs ++ replicate k none)) h) (omega arith)
        (omega (arith, length-append pre (some x ∷ []))) in
    let later : ltb 0 (suc n) ≡ true = ground arith in
    rw (slot-some ds n x here, there)
      (rw
        (append_assoc (if ltb 0 n then text "; " else text "") (describe x)
          (listed (ltb 0 (suc n)) xs))
        (rw later))

render-IsShowing :
    (xs : List Diff) (ds : Diffs) → IsShowing xs ds → render_slots ds max_diffs 0 ≡ listed false xs
render-IsShowing xs ds h =
    slots-listed ds [] xs (max_diffs - length xs) max_diffs 0 h.stored (omega (arith, h.bounded))
      refl

-- The build stops exactly where the shapes do not conform, and the message then lists the first
-- 128 rejected differences in traversal order, each with its path and labels.
pub check_lem :
    (p c : TypeShape) (policy : SchemaPolicy)
    → check p c policy ≡ (
        if conforms p c policy
        then none
        else some (
            text "producer schema does not conform to the contract: "
            ++ listed false
                (take max_diffs (select (λ d. rejects d policy) (all_diffs p c policy)))))
unfolding check conforms
check_lem p c policy =
    rw
      (← render-IsShowing (take max_diffs (select (λ d. rejects d policy) (all_diffs p c policy)))
        (compare p c policy).diffs (compare_lem p c policy).1)
      (flip (compare p c policy).rejected _)
  where
    flip : (b : Bool) (m : Option Text) → (if b then m else none) ≡ (if not b then none else m)
    flip true m = refl
    flip false m = refl
