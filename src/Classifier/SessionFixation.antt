-- ===== src/Classifier/SessionFixation.antt =====
-- crates/sessionscope-classifier/src/session_fixation.rs: transitions of a session without a new identifier.
pub mod Records
pub mod Regeneration
pub mod Build
pub mod Classify
pub mod Range
pub mod Reported
