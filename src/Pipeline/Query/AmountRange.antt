-- ===== src/Pipeline/Query/AmountRange.antt =====
-- crates/pipeline/src/datafusion_query.rs `AmountRangeAccumulator`: the aggregate `MAX - MIN`, with the
-- partial states that DataFusion merges. An array of amounts is the list of its values, `none` for a
-- null; an accumulator's state is one value per field, which comes back as arrays of such states.
pub mod Order
pub mod Laws
pub mod Extremes
use datacrate.Common.{
  ℕ, ◌+◌, ◌-◌, ◌≤◌, ◌≡◌, ◌⊎◌, inl, inr, refl, sym, ap, ◌∙◌, Bool, true, false, List, [], ◌∷◌, ◌++◌,
  Option, none, some, arith, leb, if◌then◌else◌, match_option, ℤ, pos, negsuc, leb_int, min_int,
  max_int, ◌-ℤ◌, difference, Bool-cases,
}

pub record AmountRangeAccumulator : Type 0 where
  pub min : Option ℤ
  pub max : Option ℤ

-- `Default`
abbrev pub no_amounts : AmountRangeAccumulator
no_amounts = record { min = none; max = none }

-- `current.map_or(value, |c| c.min(value))`
unfoldable pub lower : Option ℤ → ℤ → Option ℤ
unfolding min_int
lower current value = some (match_option current value λ c. min_int c value)

unfoldable pub raise : Option ℤ → ℤ → Option ℤ
unfolding max_int
raise current value = some (match_option current value λ c. max_int c value)

-- The loops over the values that are no nulls.
unfoldable pub lower_all : Option ℤ → List (Option ℤ) → Option ℤ
unfolding lower
lower_all current [] = current
lower_all current (none ∷ values) = lower_all current values
lower_all current (some v ∷ values) = lower_all (lower current v) values

unfoldable pub raise_all : Option ℤ → List (Option ℤ) → Option ℤ
unfolding raise
raise_all current [] = current
raise_all current (none ∷ values) = raise_all current values
raise_all current (some v ∷ values) = raise_all (raise current v) values

unfoldable pub update_batch : AmountRangeAccumulator → List (Option ℤ) → AmountRangeAccumulator
unfolding lower raise
update_batch acc [] = acc
update_batch acc (none ∷ values) = update_batch acc values
update_batch acc (some v ∷ values) =
    update_batch (record { min = lower acc.min v; max = raise acc.max v }) values

unfoldable pub state : AmountRangeAccumulator → Option ℤ × Option ℤ
state acc = (acc.min, acc.max)

unfoldable pub merge_batch :
    AmountRangeAccumulator → List (Option ℤ) → List (Option ℤ) → AmountRangeAccumulator
unfolding lower_all raise_all
merge_batch acc mins maxes = record { min = lower_all acc.min mins; max = raise_all acc.max maxes }

unfoldable pub evaluate : AmountRangeAccumulator → Option ℤ
unfolding ◌-ℤ◌
evaluate acc = match_option acc.min none λ low. match_option acc.max none λ high. some (high -ℤ low)
