-- ===== src/Classifier/OauthFlow.antt =====
-- crates/sessionscope-classifier/src/oauth_flow.rs: the findings about authorization-code flows.
pub mod Rules
pub mod Classify
pub mod Seen
pub mod Quiet
mod Tests
