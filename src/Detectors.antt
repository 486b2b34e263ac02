-- ===== src/Detectors.antt =====
-- The detectors: crates/sessionscope-detectors/src. A detector itself is a value of the trait.
pub mod Traits
pub mod Registry
