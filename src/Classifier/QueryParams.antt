-- ===== src/Classifier/QueryParams.antt =====
-- crates/sessionscope-classifier/src/query_params.rs: tokens that are read from the query of a URL.
pub mod Classify
pub mod Reported
