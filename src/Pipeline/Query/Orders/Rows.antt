-- ===== src/Pipeline/Query/Orders/Rows.antt =====
-- `parse_order_row` of crates/pipeline/src/datafusion_query.rs against the fields of a record.
use datacrate.Common.{
  ℕ, ◌≡◌, ◌↔◌, refl, subst, Option, none, some, Result, ok, err, Text, match_option, ℤ, ok_inj,
  then-ok,
}
use datacrate.Pipeline.IoError.{PipelineIoError}
use datacrate.Pipeline.Rows.{Record, parse_id, parse_i64, field_or_empty, note_of}
use datacrate.Pipeline.Query.Amount.{parse_amount}
use datacrate.Pipeline.Query.Amount.Parse.{Denotes, parse_amount_iff}
use datacrate.Pipeline.Query.Orders.{OrderRow, parse_timestamp, parse_order_row}

match-ok :
    {A X : Type 0} (o : Option A) (x : X) {a : A}
    → ◌≡◌ {A = Result X A} (match_option o (err x) ok) (ok a)
    → o ≡ some a
match-ok none x h = absurd (cc)
match-ok (some a) x h = cc

-- The row's fields, read from the record's.
abbrev pub OrderOf : (Text → Option ℤ) → Record → OrderRow → Type 0
OrderOf parse_naive fields row =
    (parse_i64 (field_or_empty fields 0) ≡ some row.id.value)
    × Denotes (field_or_empty fields 1) row.amount
    × (parse_naive (field_or_empty fields 2) ≡ some row.placed_at)
    × (row.note ≡ note_of (field_or_empty fields 3))

module _ {D E : Type 0} (parse_naive : Text → Option ℤ) where
  -- A record is a row exactly where its first field is an `i64`, its second a decimal of scale 2 within ten digits, its
  -- third a timestamp, and the row has these values and the fourth field as its note, a null if empty.
  pub parse_order_row_iff :
      (k : ℕ) (fields : Record) (row : OrderRow)
      → ◌≡◌ {A = Result (PipelineIoError D E) OrderRow}
          (parse_order_row parse_naive k fields)
          (ok row)
        ↔ OrderOf parse_naive fields row
  unfolding parse_order_row parse_id parse_timestamp
  parse_order_row_iff k fields row = (
    λ h.
        let (id, is_id, h1) = then-ok {A = ℕ} _ _ h in
        let (amount, is_amount, h2) =
          then-ok {A = ℤ} (parse_amount k (field_or_empty fields 1)) _ h1 in
        let (placed, is_placed, h3) = then-ok {A = ℤ} _ _ h2 in
        subst (OrderOf parse_naive fields) (ok_inj h3) (
          match-ok _ _ is_id,
          (parse_amount_iff {D = D} {E = E} k (field_or_empty fields 1) amount).0 is_amount,
          match-ok _ _ is_placed,
          refl,
        ),
    λ (is_id, is_amount, is_placed, is_note).
        rw
          (
            is_id,
            (parse_amount_iff {D = D} {E = E} k (field_or_empty fields 1) row.amount).1 is_amount,
            is_placed,
            is_note,
          )
          refl,
  )
