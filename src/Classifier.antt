-- ===== src/Classifier.antt =====
-- The classifiers: crates/sessionscope-classifier/src.
pub mod Lookup
pub mod Order
pub mod Lifecycle
pub mod OauthFlow
pub mod SessionFixation
pub mod QueryParams
pub mod ClientStorage
mod Tests
