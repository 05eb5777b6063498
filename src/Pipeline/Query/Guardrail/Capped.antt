-- ===== src/Pipeline/Query/Guardrail/Capped.antt =====
-- The rows of a plan that `MaxRowsGuardrail` of crates/pipeline/src/datafusion_query.rs has rewritten.
use datacrate.Common.{
  ℕ, zero, suc, ◌≤◌, ◌≡◌, refl, sym, ap, ◌∙◌, true, false, List, [], ◌∷◌, Option, none, some, ok,
  ok_inj, subst, arith, leb, if◌then◌else◌, pos, negsuc, leb_int, take, inl, inr, Bool-cases,
  leb→le,
}
use datacrate.Pipeline.Query.AmountRange.Order.{leb_int_refl}
use datacrate.Pipeline.Query.Guardrail.{
  Expr, int64_literal, other_expr, LogicalPlan, limit, other_plan, MaxRowsGuardrail, new,
  already_capped, rewrite,
}

-- What DataFusion documents of a limit: a literal fetch takes that many rows of what is left after the
-- skip, and a limit of neither is its input.
pub record LimitLaws {P X R : Type 0} (rows : LogicalPlan P X → List R) : Type 0 where
  pub fetch_takes :
      (skip : Option (Expr X)) (n : ℕ) (input : LogicalPlan P X)
      → rows (limit skip (some (int64_literal (pos n))) input)
        ≡ take n (rows (limit skip none input))
  pub no_limit : (input : LogicalPlan P X) → rows (limit none none input) ≡ rows input

-- The fetch of an outer limit is absent or a literal that is not negative.
abbrev pub IsPlain : {P X : Type 0} → LogicalPlan P X → Type 0
IsPlain (limit _ none _) = Unit {0}
IsPlain (limit _ (some (int64_literal (pos _))) _) = Unit {0}
IsPlain (limit _ _ _) = ⊥
IsPlain (other_plan _) = Unit {0}

take-take : {R : Type 0} (m n : ℕ) (xs : List R) → m ≤ n → take m (take n xs) ≡ take m xs
take-take zero n xs h = refl
take-take (suc m) zero xs h = absurd (omega arith)
take-take (suc m) (suc n) [] h = refl
take-take (suc m) (suc n) (x ∷ xs) h = ap (◌∷◌ x) (take-take m n xs (omega arith))

take_none : {R : Type 0} (m : ℕ) → take {A = R} m [] ≡ []
take_none zero = refl
take_none (suc m) = refl

take-take_least : {R : Type 0} (m n : ℕ) (xs : List R) → n ≤ m → take m (take n xs) ≡ take n xs
take-take_least m zero xs h = take_none m
take-take_least zero (suc n) xs h = absurd (omega arith)
take-take_least (suc m) (suc n) [] h = refl
take-take_least (suc m) (suc n) (x ∷ xs) h = ap (◌∷◌ x) (take-take_least m n xs (omega arith))

made_rule :
    (cap : ℕ) (rule : MaxRowsGuardrail)
    → new (pos cap) ≡ ok rule
    → record { max_rows = pos cap } ≡ rule
unfolding new leb_int
made_rule cap rule h = let least : leb 0 cap ≡ true = ground arith in ok_inj (rw (least) at h)

module _ {P X R : Type 0} (rows : LogicalPlan P X → List R) (laws : LimitLaws rows) where
  capped_by :
      (cap : ℕ) (plan : LogicalPlan P X)
      → IsPlain plan
      → rows (rewrite (record { max_rows = pos cap }) plan).data_of ≡ take cap (rows plan)
  unfolding rewrite leb_int
  capped_by cap (limit skip none input) plain = laws.fetch_takes skip cap input
  capped_by cap (limit skip (some (int64_literal (pos n))) input) plain =
      elim (Bool-cases (leb n cap)) [
        | inl e ↦
            rw (e, if◌then◌else◌, laws.fetch_takes skip n input)
              (sym (take-take_least cap n (rows (limit skip none input)) (leb→le n cap e)))
        | inr e ↦
            rw (e, if◌then◌else◌, laws.fetch_takes skip n input, laws.fetch_takes skip cap input)
              (sym (take-take cap n (rows (limit skip none input)) (ground arith)))
      ]
  capped_by cap (limit skip (some (int64_literal (negsuc n))) input) plain = absurd plain
  capped_by cap (limit skip (some (other_expr x)) input) plain = absurd plain
  capped_by cap (other_plan p) plain =
      laws.fetch_takes none cap (other_plan p) ∙ ap (take cap) (laws.no_limit (other_plan p))

  -- For a plan whose outermost limit, if it has one, has no fetch or a non-negative literal one, the rewritten plan gives the first
  -- rows of the plan's result, as many as the cap says: it never gives other rows, or more.
  pub rewrite-capped :
      (rule : MaxRowsGuardrail) (cap : ℕ) (plan : LogicalPlan P X)
      → new (pos cap) ≡ ok rule
      → IsPlain plan
      → rows (rewrite rule plan).data_of ≡ take cap (rows plan)
  rewrite-capped rule cap plan made plain =
      subst (λ r. rows (rewrite r plan).data_of ≡ take cap (rows plan)) (made_rule cap rule made)
        (capped_by cap plan plain)

module _ {P X : Type 0} where
  -- The rule reaches a fixed point at once: a second pass over a plan leaves it as the first made it, and reports no
  -- change.
  pub rewrite_twice :
      (rule : MaxRowsGuardrail) (plan : LogicalPlan P X)
      → rewrite rule (rewrite rule plan).data_of
        ≡ record { data_of = (rewrite rule plan).data_of; changed = false }
  unfolding rewrite
  rewrite_twice rule (other_plan p) = rw (leb_int_refl rule.max_rows) refl
  rewrite_twice rule (limit skip fetch input) =
      elim (Bool-cases (already_capped rule.max_rows fetch)) [
        | inl e ↦ rw (e, if◌then◌else◌, e) refl
        | inr e ↦ rw (e, if◌then◌else◌, leb_int_refl rule.max_rows) refl
      ]
