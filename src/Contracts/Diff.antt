-- ===== src/Contracts/Diff.antt =====
-- crates/contracts/src/lib.rs: one difference, its path, the bounded display and the verdict.
use datacrate.Common.{
  ℕ, ◌+◌, Bool, true, false, not, ◌||◌, List, Option, none, some, Text, text, ltb, if◌then◌else◌,
  set, replicate,
}
use datacrate.Contracts.Shape.{SchemaPolicy, full, backward, forward}

abbrev pub max_path_depth : ℕ
max_path_depth = 8

abbrev pub max_diffs : ℕ
max_diffs = 128

-- `[&'static str; MAX_PATH_DEPTH]`
abbrev pub DiffPath : Type 0
DiffPath = List Text

abbrev pub empty_path : DiffPath
empty_path = replicate max_path_depth (text "")

pub data DiffKind : Type 0 where
  missing extra mismatch : DiffKind

pub record Diff : Type 0 where
  pub kind : DiffKind
  pub path : DiffPath
  pub optional_or_default : Bool
  pub annotation : Text
  pub expected : Text
  pub found : Text

unfoldable pub optional_annotation : Bool → Bool → Text
optional_annotation is_optional has_default =
    if is_optional then text " (optional)" else if has_default then text " (default)" else text ""

unfoldable pub missing_diff : DiffPath → Bool → Bool → Diff
missing_diff path is_optional has_default = record {
  kind = missing;
  path = path;
  optional_or_default = is_optional || has_default;
  annotation = optional_annotation is_optional has_default;
  expected = text "";
  found = text "";
}

unfoldable pub extra_diff : DiffPath → Diff
extra_diff path = record {
  kind = extra;
  path = path;
  optional_or_default = false;
  annotation = text "";
  expected = text "";
  found = text "";
}

unfoldable pub mismatch_diff_labeled : DiffPath → Text → Text → Diff
mismatch_diff_labeled path expected found = record {
  kind = mismatch;
  path = path;
  optional_or_default = false;
  annotation = text "";
  expected = expected;
  found = found;
}

-- `append_segment` drops a segment past the last slot.
unfoldable pub append_segment : DiffPath → ℕ → Text → DiffPath × ℕ
append_segment path depth seg =
    if ltb depth max_path_depth then (set path depth seg, depth + 1) else (path, depth)

unfoldable pub single_segment : Text → DiffPath
single_segment name = set empty_path 0 name

-- The fixed array of slots, and how many are in use.
pub record Diffs : Type 0 where
  pub items : List (Option Diff)
  pub len : ℕ

-- `Diffs::new`
unfoldable pub no_diffs : Diffs
no_diffs = record { items = replicate max_diffs none; len = 0 }

-- `Diffs::push`
unfoldable pub push_shown : Diffs → Diff → Diffs
push_shown ds diff =
    if ltb ds.len max_diffs
    then record { items = set ds.items ds.len (some diff); len = ds.len + 1 }
    else ds

kind_rejects : SchemaPolicy → DiffKind → Bool → Bool
kind_rejects full _ _ = false
kind_rejects backward missing tolerated = not tolerated
kind_rejects backward extra _ = false
kind_rejects backward mismatch _ = true
kind_rejects forward missing _ = false
kind_rejects forward _ _ = true
kind_rejects _ _ _ = true

unfoldable pub rejects : Diff → SchemaPolicy → Bool
unfolding kind_rejects
rejects diff policy = kind_rejects policy diff.kind diff.optional_or_default

pub record Comparison : Type 0 where
  pub policy : SchemaPolicy
  pub rejected : Bool
  pub diffs : Diffs

-- `Comparison::new`
unfoldable pub new_comparison : SchemaPolicy → Comparison
new_comparison policy = record { policy = policy; rejected = false; diffs = no_diffs }

-- `Comparison::push`
unfoldable pub push : Comparison → Diff → Comparison
push s diff =
    if rejects diff s.policy
    then record s { rejected = true; diffs = push_shown s.diffs diff }
    else s
