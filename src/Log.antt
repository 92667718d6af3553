-- ===== src/Log.antt =====
-- src/logger.rs: where the log goes, and the writer that flushes it.
pub mod Defs
pub mod Writes
pub mod Calls
