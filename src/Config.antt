-- ===== src/Config.antt =====
-- src/config.rs and parse_rules of src/main.rs: a configuration that has been read from its file.
pub mod Defs
pub mod Load
pub mod Rules
