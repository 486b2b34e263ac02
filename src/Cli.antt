-- ===== src/Cli.antt =====
-- The command-line front end: crates/sessionscope-cli/src.
pub mod Enforcement
