-- ===== src/Typestate.antt =====
-- crates/typestate/src: composition of pipelines whose stages are checked at compile time.
pub mod ContractPipeline
pub mod Builder
