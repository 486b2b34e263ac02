-- ===== src/Core/Redaction.antt =====
-- crates/sessionscope-core/src/redaction.rs: what may leave the scanner as text.
pub mod Cookies
pub mod Entropy
pub mod Values
pub mod Excerpt
pub mod Sanitize
pub mod Secrecy
pub mod Budget
pub mod Window
mod Tests
