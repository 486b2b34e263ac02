-- ===== src/Model.antt =====
-- The data that the crates exchange: crates/sessionscope-model/src. Each module is one file of it.
pub mod Evidence
pub mod Lifecycle
pub mod Finding
pub mod Artifact
pub mod Report
pub mod Baseline
pub mod Schema
pub mod Samples
