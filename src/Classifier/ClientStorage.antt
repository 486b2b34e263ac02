-- ===== src/Classifier/ClientStorage.antt =====
-- crates/sessionscope-classifier/src/client_storage.rs: tokens in the storage, the URL or the code of a browser.
pub mod Classify
pub mod Reported
