-- ===== src/Pipeline.antt =====
-- crates/pipeline/src: the bounded pipeline, its transport, and the publication of its output.
pub mod Error
pub mod Transport
pub mod IoError
pub mod Manifest
pub mod Store
pub mod Rows
pub mod Simd
pub mod Query
pub mod BatchContract
pub mod Bounded
pub mod RemoteRun
pub mod Download
pub mod Upload
pub mod Publication
pub mod Staging
pub mod Cancellation
