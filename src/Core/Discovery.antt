-- ===== src/Core/Discovery.antt =====
-- crates/sessionscope-core/src/discovery.rs: which files of a tree are scanned.
pub mod Paths
pub mod Files
pub mod Accepted
pub mod Listed
pub mod Skipped
mod Tests
