-- ===== src/Reporters.antt =====
-- crates/sessionscope-reporters
pub mod MarkdownEscape
