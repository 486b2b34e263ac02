-- ===== src/Core/Capability.antt =====
-- crates/sessionscope-core/src/capability.rs: the part of a report that one capability area is about.
pub mod Matching
pub mod Filter
pub mod Closure
pub mod Counts
mod Tests
