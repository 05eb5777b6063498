-- ===== src/Pipeline/Query/Guardrail.antt =====
-- crates/pipeline/src/datafusion_query.rs `MaxRowsGuardrail`: the optimizer rule that caps the rows of a
-- result. `P` are DataFusion's plans other than a limit, `X` its expressions other than an `Int64`
-- literal.
pub mod Capped
use datacrate.Common.{
  ℕ, Bool, true, false, Option, none, some, Result, ok, err, if◌then◌else◌, match_option, ℤ, pos,
  negsuc, leb_int, not,
}

pub data Expr (X : Type 0) : Type 0 where
  int64_literal : ℤ → Expr X
  other_expr : X → Expr X

pub data LogicalPlan (P X : Type 0) : Type 0 where
  limit : Option (Expr X) → Option (Expr X) → LogicalPlan P X → LogicalPlan P X
  other_plan : P → LogicalPlan P X

pub record MaxRowsGuardrail : Type 0 where
  pub max_rows : ℤ

pub data GuardrailError : Type 0 where
  negative_cap : GuardrailError

unfoldable pub new : ℤ → Result GuardrailError MaxRowsGuardrail
unfolding leb_int
new max_rows =
    if not (leb_int (pos 0) max_rows) then err negative_cap else ok (record { max_rows = max_rows })

-- `Transformed::no` and `Transformed::yes`
pub record Transformed (P X : Type 0) : Type 0 where
  pub data_of : LogicalPlan P X
  pub changed : Bool

-- `matches!` on the fetch expression.
unfoldable pub already_capped : {X : Type 0} → ℤ → Option (Expr X) → Bool
unfolding leb_int
already_capped max_rows (some (int64_literal n)) = leb_int n max_rows
already_capped max_rows _ = false

module _ {P X : Type 0} where
  unfoldable pub rewrite : MaxRowsGuardrail → LogicalPlan P X → Transformed P X
  unfolding already_capped
  rewrite rule (limit skip fetch input) =
      if already_capped rule.max_rows fetch
      then record { data_of = limit skip fetch input; changed = false }
      else record {
        data_of = limit skip (some (int64_literal rule.max_rows)) input;
        changed = true;
      }
  rewrite rule (other_plan p) = record {
    data_of = limit none (some (int64_literal rule.max_rows)) (other_plan p);
    changed = true;
  }
