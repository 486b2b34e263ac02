-- ===== src/Core.antt =====
-- The scanning core: crates/sessionscope-core/src.
pub mod Redaction
pub mod Baseline
pub mod Capability
pub mod Source
pub mod Discovery
pub mod Pipeline
mod Tests
