-- ===== src/Csv.antt =====
-- crates/csv-cli and crates/dtl-core: one column of a CSV file, and rows as slices of a buffer.
pub mod Select
pub mod Batch
mod Examples
