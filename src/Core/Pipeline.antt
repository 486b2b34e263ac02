-- ===== src/Core/Pipeline.antt =====
-- crates/sessionscope-core/src/pipeline.rs: the scan of a directory.
pub mod Config
pub mod Defaults
pub mod File
pub mod Workers
pub mod Scan
pub mod Labels
pub mod Chunks
pub mod Totals
pub mod Inside
mod Tests
