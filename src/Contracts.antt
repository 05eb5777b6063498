-- ===== src/Contracts.antt =====
-- crates/contracts/src/lib.rs: shapes, policies and the compile-time comparison.
pub mod Names
pub mod Shape
pub mod Diff
pub mod Compare
pub mod Render
pub mod Arrow
mod Examples
