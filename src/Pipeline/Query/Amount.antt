-- ===== src/Pipeline/Query/Amount.antt =====
-- crates/pipeline/src/datafusion_query.rs `parse_amount`: a decimal text of scale 2 as an unscaled
-- `i128`, with the standard library's `split_once`, `strip_prefix` and `i128::parse`.
pub mod Decimal
pub mod Parse
use datacrate.Common.{
  ℕ, zero, suc, ◌+◌, ◌-◌, ◌*◌, ◌^◌, Bool, true, false, not, ◌&&◌, ◌||◌, List, [], ◌∷◌, Option, none,
  some, Result, ok, err, Text, leb, ◌==◌, if◌then◌else◌, match_option, length, ℤ, pos, negsuc,
  signed, leb_int, ◌+ℤ◌, ◌-ℤ◌, times, checked_i128,
}
use datacrate.Pipeline.IoError.{PipelineIoError, invalid_amount}
use datacrate.Pipeline.Rows.{magnitude}

unfoldable pub split_once : ℕ → Text → Option (Text × Text)
split_once at [] = none
split_once at (c ∷ cs) =
    let rest = split_once at cs in
    if c == at then some ([], cs) else match_option rest none (λ parts. some (c ∷ parts.0, parts.1))

-- `strip_prefix('-')`, or else `strip_prefix('+')`, or else the text.
unfoldable pub strip_sign : Text → Text
strip_sign [] = []
strip_sign (c ∷ cs) = if c == b'-' then cs else if c == b'+' then cs else c ∷ cs

unfoldable pub all_digits : Text → Bool
all_digits [] = true
all_digits (c ∷ cs) = leb 48 c && leb c 57 && all_digits cs

unfoldable pub starts_with : ℕ → Text → Bool
starts_with byte [] = false
starts_with byte (c ∷ cs) = c == byte

unfoldable pub is_empty : Text → Bool
is_empty [] = true
is_empty (c ∷ cs) = false

-- `str::parse::<i128>`
unfoldable pub parse_i128 : Text → Option ℤ
unfolding magnitude signed
parse_i128 [] = none
parse_i128 (c ∷ cs) =
    if c == b'-'
    then match_option (magnitude (2 ^ 127) cs) none (λ n. some (signed true n))
    else match_option (magnitude (2 ^ 127 - 1) (if c == b'+' then cs else c ∷ cs)) none
        (λ n. some (pos n))

-- The range of a `Decimal128(10, 2)`, unscaled.
abbrev pub max_unscaled : ℕ
max_unscaled = 9999999999

-- `whole.checked_mul(100)`, the checked sum, and the filter.
unfoldable pub scaled : Bool → ℤ → ℤ → Option ℤ
unfolding checked_i128 times ◌+ℤ◌ ◌-ℤ◌ leb_int signed
scaled minus whole frac = match_option (checked_i128 (times 100 whole)) none λ hundreds.
    match_option (checked_i128 (hundreds +ℤ (if minus then pos 0 -ℤ frac else frac))) none λ amount.
      if leb_int (signed true max_unscaled) amount && leb_int amount (pos max_unscaled)
      then some amount
      else none

module _ {D E : Type 0} where
  unfoldable pub parse_amount : ℕ → Text → Result (PipelineIoError D E) ℤ
  unfolding split_once strip_sign all_digits starts_with is_empty parse_i128 scaled
  parse_amount row value =
      let invalid = err (invalid_amount row value) in
      match_option (split_once b'.' value) invalid λ parts.
        let whole = parts.0 in
        let frac = parts.1 in
        let digits = strip_sign whole in
        if is_empty digits
          || not (all_digits digits)
          || not (length frac == 2)
          || not (all_digits frac)
        then invalid
        else match_option (parse_i128 whole) invalid λ w.
          match_option (parse_i128 frac) invalid
            λ f. match_option (scaled (starts_with b'-' value) w f) invalid ok
