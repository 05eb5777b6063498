-- ===== src/Pipeline/Query.antt =====
-- crates/pipeline/src/datafusion_query.rs: the parts of it that compute by themselves; planning and
-- execution of queries are DataFusion's.
pub mod Amount
pub mod AmountRange
pub mod Orders
pub mod Days
pub mod Guardrail
mod Examples
