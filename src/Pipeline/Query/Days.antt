-- ===== src/Pipeline/Query/Days.antt =====
-- crates/pipeline/src/datafusion_query.rs `invoke_days_since_epoch`: microseconds to whole days. `V` are
-- DataFusion's values of any other type, a null is `none`.
pub mod Floor
use datacrate.Common.{
  ℕ, ◌+◌, ◌/◌, List, [], ◌∷◌, map, Option, none, some, Result, ok, err, length, ℤ, pos, negsuc,
}

abbrev pub micros_per_day : ℕ
micros_per_day = 86400000000

-- `i64::div_euclid` by a positive number.
unfoldable pub div_euclid : ℤ → ℕ → ℤ
div_euclid (pos n) d = pos (n / d)
div_euclid (negsuc n) d = negsuc (n / d)

pub data ColumnarValue (V : Type 0) : Type 0 where
  scalar_micros : Option ℤ → ColumnarValue V
  array_micros : List (Option ℤ) → ColumnarValue V
  scalar_int64 : Option ℤ → ColumnarValue V
  array_int64 : List (Option ℤ) → ColumnarValue V
  other_value : V → ColumnarValue V

pub data DaysError (V : Type 0) : Type 0 where
  wrong_arity : ℕ → DaysError V
  wrong_type : ColumnarValue V → DaysError V

abbrev pub day_of : Option ℤ → Option ℤ
day_of none = none
day_of (some micros) = some (div_euclid micros micros_per_day)

module _ {V : Type 0} where
  -- The check of the type, and the match; an array or scalar of this type passes its downcast.
  unfoldable pub days_of : ColumnarValue V → Result (DaysError V) (ColumnarValue V)
  days_of (scalar_micros micros) = ok (scalar_int64 (day_of micros))
  days_of (array_micros timestamps) = ok (array_int64 (map day_of timestamps))
  days_of input = err (wrong_type input)

  unfoldable pub invoke_days_since_epoch :
      List (ColumnarValue V) → Result (DaysError V) (ColumnarValue V)
  unfolding days_of
  invoke_days_since_epoch (input ∷ []) = days_of input
  invoke_days_since_epoch args = err (wrong_arity (length args))
