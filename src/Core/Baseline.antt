-- ===== src/Core/Baseline.antt =====
-- crates/sessionscope-core/src/baseline.rs: accepted findings, and what has changed since.
pub mod Fingerprint
pub mod Diff
pub mod Partition
pub mod Passes
pub mod Summary
pub mod Whole
pub mod Ordered
pub mod SelfDiff
mod Tests
