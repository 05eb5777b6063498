-- ===== src/Pipeline/Query/Orders.antt =====
-- crates/pipeline/src/datafusion_query.rs: the rows of the orders and shipments files and their batches.
-- `chrono`'s parser of `%Y-%m-%dT%H:%M:%S`, in microseconds since the epoch, and Arrow's arrays and
-- `RecordBatch::try_new` are parameters.
pub mod Rows
use datacrate.Common.{
  ℕ, Bool, true, false, List, [], ◌∷◌, map, Option, none, some, Result, ok, err, ◌>>=◌, map_err,
  Text, text, match_option, ℤ,
}
use datacrate.Pipeline.IoError.{PipelineIoError, invalid_timestamp, build_batch}
use datacrate.Pipeline.Rows.{Record, parse_id, field_or_empty, note_of, read_csv_rows}
use datacrate.Pipeline.Query.Amount.{parse_amount}

-- The column types of the two schemas.
pub data ColumnType : Type 0 where
  int64 timestamp_micros utf8 : ColumnType
  decimal128 : ℕ → ℕ → ColumnType

pub record SchemaField : Type 0 where
  pub name : Text
  pub column_type : ColumnType
  pub nullable : Bool

abbrev new_field : Text → ColumnType → Bool → SchemaField
new_field name column_type nullable = record {
  name = name;
  column_type = column_type;
  nullable = nullable;
}

unfoldable pub orders_schema : List SchemaField
orders_schema =
    new_field (text "id") int64 false
    ∷ new_field (text "amount") (decimal128 10 2) false
    ∷ new_field (text "placed_at") timestamp_micros false
    ∷ new_field (text "note") utf8 true
    ∷ []

unfoldable pub shipments_schema : List SchemaField
shipments_schema =
    new_field (text "order_id") int64 false
    ∷ new_field (text "carrier") utf8 false
    ∷ new_field (text "shipped_at") timestamp_micros false
    ∷ []

-- An `i64` by its two's complement.
pub record OrderId : Type 0 where
  pub value : ℕ

pub record OrderRow : Type 0 where
  pub id : OrderId
  pub amount : ℤ
  pub placed_at : ℤ
  pub note : Option Text

pub record ShipmentRow : Type 0 where
  pub order_id : OrderId
  pub carrier : Text
  pub shipped_at : ℤ

abbrev order_id_of : ℕ → OrderId
order_id_of n = record { value = n }

module _ {D E : Type 0} (parse_naive : Text → Option ℤ) where
  unfoldable pub parse_timestamp : ℕ → Text → Result (PipelineIoError D E) ℤ
  parse_timestamp row value =
      match_option (parse_naive value) (err (invalid_timestamp row value)) ok

  unfoldable pub parse_order_row : ℕ → Record → Result (PipelineIoError D E) OrderRow
  unfolding parse_timestamp parse_amount
  parse_order_row row fields = do
    id ← parse_id row fields
    amount ← parse_amount row (field_or_empty fields 1)
    placed_at ← parse_timestamp row (field_or_empty fields 2)
    ok (record {
      id = order_id_of id;
      amount = amount;
      placed_at = placed_at;
      note = note_of (field_or_empty fields 3);
    })

  unfoldable pub parse_shipment_row : ℕ → Record → Result (PipelineIoError D E) ShipmentRow
  unfolding parse_timestamp
  parse_shipment_row row fields = do
    order_id ← parse_id row fields
    shipped_at ← parse_timestamp row (field_or_empty fields 2)
    ok (record {
      order_id = order_id_of order_id;
      carrier = field_or_empty fields 1;
      shipped_at = shipped_at;
    })

-- Arrow's arrays `A`, their builders, and the assembly of a batch.
pub record Arrays (E A Batch : Type 0) : Type 0 where
  pub int64_array : List ℕ → A
  pub decimal_array : List ℤ → A
  pub with_precision_and_scale : ℕ → ℕ → A → Result E A
  pub timestamp_array : List ℤ → A
  pub string_array : List (Option Text) → A
  pub try_new : List SchemaField → List A → Result E Batch

module _ {D E A Batch : Type 0} (arrow : Arrays E A Batch) where
  unfoldable pub rows_to_orders_batch : List OrderRow → Result (PipelineIoError D E) Batch
  unfolding orders_schema
  rows_to_orders_batch rows = do
    let ids = arrow.int64_array (map (λ r. r.id.value) rows)
    amounts ←
        map_err build_batch
          (arrow.with_precision_and_scale 10 2 (arrow.decimal_array (map (λ r. r.amount) rows)))
    let placed_ats = arrow.timestamp_array (map (λ r. r.placed_at) rows)
    let notes = arrow.string_array (map (λ r. r.note) rows)
    map_err build_batch (arrow.try_new orders_schema (ids ∷ amounts ∷ placed_ats ∷ notes ∷ []))

  unfoldable pub rows_to_shipments_batch : List ShipmentRow → Result (PipelineIoError D E) Batch
  unfolding shipments_schema
  rows_to_shipments_batch rows =
      let order_ids = arrow.int64_array (map (λ r. r.order_id.value) rows) in
      let carriers = arrow.string_array (map (λ r. some r.carrier) rows) in
      let shipped_ats = arrow.timestamp_array (map (λ r. r.shipped_at) rows) in
      map_err build_batch (arrow.try_new shipments_schema (order_ids ∷ carriers ∷ shipped_ats ∷ []))

  module _ (parse_naive : Text → Option ℤ) where
    unfoldable pub fixture_to_orders_batch :
        Text → Result E (List (Result E Record)) → Result (PipelineIoError D E) Batch
    unfolding rows_to_orders_batch parse_order_row
    fixture_to_orders_batch path file =
        read_csv_rows path file (parse_order_row parse_naive) >>= rows_to_orders_batch

    unfoldable pub fixture_to_shipments_batch :
        Text → Result E (List (Result E Record)) → Result (PipelineIoError D E) Batch
    unfolding rows_to_shipments_batch parse_shipment_row
    fixture_to_shipments_batch path file =
        read_csv_rows path file (parse_shipment_row parse_naive) >>= rows_to_shipments_batch
