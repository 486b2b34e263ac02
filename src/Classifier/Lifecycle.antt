-- ===== src/Classifier/Lifecycle.antt =====
-- crates/sessionscope-classifier/src/lifecycle.rs
mod Tests
pub mod Artifacts
pub mod Paths
pub mod Metadata
pub mod Links
pub mod Merge
pub mod Signals
pub mod Cookies
pub mod PathRules
pub mod CookieRules
pub mod Classify
pub mod Gaps
pub mod Latest
pub mod Chosen
pub mod RulesGrounded
pub mod ReportGrounded
pub mod Grounded
