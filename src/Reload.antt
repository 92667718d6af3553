-- ===== src/Reload.antt =====
-- src/main.rs, run_app_init: the task that reads the rules again when the configuration file changes.
pub mod Defs
pub mod Current
pub mod Live
