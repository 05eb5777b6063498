-- ===== src/Pipeline/Query/Examples.antt =====
-- The computations of crates/pipeline/src/datafusion_query.rs on concrete inputs.
use datacrate.Common.{
  ℕ, ◌≡◌, ◌↔◌, refl, List, [], ◌∷◌, map, Option, none, some, text, Result, ok, err, ℤ, pos, negsuc,
  leb_int, ◌+ℤ◌, ◌-ℤ◌, times, signed, checked_i128, difference, take,
}
use datacrate.Pipeline.IoError.{PipelineIoError, invalid_amount, invalid_id}
use datacrate.Pipeline.Rows.{
  Record, read_row, rows_from, parse_id, parse_i64, magnitude, digits, field_or_empty,
}
use datacrate.Pipeline.Rows.Reading.{FirstBad, rows_from_err}
use datacrate.Pipeline.Query.Amount.{
  parse_amount, split_once, strip_sign, all_digits, starts_with, is_empty, parse_i128, scaled,
}
use datacrate.Pipeline.Query.Amount.Parse.{Denotes, parse_amount_iff}
use datacrate.Pipeline.Query.AmountRange.{no_amounts, update_batch, merge_batch, evaluate}
use datacrate.Pipeline.Query.AmountRange.Laws.{joined, partial, merge_batch-update_batch}
use datacrate.Pipeline.Query.AmountRange.Extremes.{
  IsRange, evaluate-update_batch, update_batch_twice,
}
use datacrate.Pipeline.Query.Days.{micros_per_day, div_euclid}
use datacrate.Pipeline.Query.Days.Floor.{IsDay, div_euclid-IsDay}
use datacrate.Pipeline.Query.Guardrail.{
  Expr, int64_literal, LogicalPlan, limit, other_plan, MaxRowsGuardrail, new, rewrite,
}
use datacrate.Pipeline.Query.Guardrail.Capped.{LimitLaws, rewrite-capped}

minus_zero_whole :
    ◌≡◌ {A = Result (PipelineIoError (Unit {0}) ℕ) ℤ}
      (parse_amount 0 (text "-0.05"))
      (ok (negsuc 4))
unfolding parse_amount split_once strip_sign all_digits starts_with is_empty parse_i128 scaled
    magnitude digits signed times checked_i128 ◌+ℤ◌ ◌-ℤ◌ leb_int difference
minus_zero_whole = refl

eleven_digits :
    ◌≡◌ {A = Result (PipelineIoError (Unit {0}) ℕ) ℤ}
      (parse_amount 3 (text "100000000.00"))
      (err (invalid_amount 3 (text "100000000.00")))
unfolding parse_amount split_once strip_sign all_digits starts_with is_empty parse_i128 scaled
    magnitude digits signed times checked_i128 ◌+ℤ◌ ◌-ℤ◌ leb_int difference
eleven_digits = refl

parse_amount_iff_example :
    ◌≡◌ {A = Result (PipelineIoError (Unit {0}) ℕ) ℤ}
      (parse_amount 0 (text "-0.05"))
      (ok (negsuc 4))
    ↔ Denotes (text "-0.05") (negsuc 4)
parse_amount_iff_example = parse_amount_iff {D = Unit {0}} {E = ℕ} 0 (text "-0.05") (negsuc 4)

abbrev partitions : List (List (Option ℤ))
partitions = (some (pos 3) ∷ none ∷ []) ∷ [] ∷ (some (negsuc 6) ∷ some (pos 5) ∷ []) ∷ []

merge_batch-update_batch_example :
    merge_batch no_amounts
      (map (λ p. (partial p).0) partitions)
      (map (λ p. (partial p).1) partitions)
    ≡ update_batch no_amounts (joined partitions)
merge_batch-update_batch_example = merge_batch-update_batch no_amounts partitions

range_found : evaluate (update_batch no_amounts (joined partitions)) ≡ some (pos 12)
unfolding evaluate update_batch ◌-ℤ◌ leb_int difference
range_found = refl

evaluate-update_batch_test :
    IsRange (joined partitions) (evaluate (update_batch no_amounts (joined partitions)))
evaluate-update_batch_test = evaluate-update_batch (joined partitions)

update_batch_twice_example :
    update_batch (update_batch no_amounts (joined partitions)) (joined partitions)
    ≡ update_batch no_amounts (joined partitions)
update_batch_twice_example = update_batch_twice no_amounts (joined partitions)

day_before_the_epoch : div_euclid (negsuc 0) micros_per_day ≡ negsuc 0
unfolding div_euclid
day_before_the_epoch = refl

div_euclid-IsDay_example : IsDay (negsuc 0) (div_euclid (negsuc 0) micros_per_day)
div_euclid-IsDay_example = div_euclid-IsDay (negsuc 0)

-- A plan over a table of three rows.
abbrev Plan : Type 0
Plan = LogicalPlan (Unit {0}) (Unit {0})

fetched : Option (Expr (Unit {0})) → List ℕ → List ℕ
fetched (some (int64_literal (pos n))) xs = take n xs
fetched _ xs = xs

rows : Plan → List ℕ
unfolding fetched
rows (limit skip fetch input) = fetched fetch (rows input)
rows (other_plan _) = 1 ∷ 2 ∷ 3 ∷ []

rows_laws : LimitLaws rows
unfolding rows
rows_laws = record { fetch_takes = λ skip n input. refl; no_limit = λ input. refl }

abbrev two_rows : MaxRowsGuardrail
two_rows = record { max_rows = pos 2 }

two_rows_made : new (pos 2) ≡ ok two_rows
unfolding new leb_int
two_rows_made = refl

rewrite-capped_example :
    rows (rewrite two_rows (limit none (some (int64_literal (pos 3))) (other_plan tt))).data_of
    ≡ take 2 (rows (limit none (some (int64_literal (pos 3))) (other_plan tt)))
rewrite-capped_example =
    rewrite-capped rows rows_laws two_rows 2
      (limit none (some (int64_literal (pos 3))) (other_plan tt)) two_rows_made tt

-- The second of two lines has no number in front.
abbrev lines : List (Result ℕ Record)
lines = ok (text "7" ∷ text "a" ∷ []) ∷ ok (text "x" ∷ text "b" ∷ []) ∷ []

second_is_bad : rows_from (parse_id {D = Unit {0}}) 0 lines ≡ err (invalid_id 1 (text "x"))
unfolding rows_from read_row parse_id parse_i64 magnitude digits field_or_empty
second_is_bad = refl

rows_from_err_example : FirstBad (parse_id {D = Unit {0}}) 0 lines (invalid_id 1 (text "x"))
rows_from_err_example =
    rows_from_err (parse_id {D = Unit {0}}) 0 lines (invalid_id 1 (text "x")) second_is_bad
