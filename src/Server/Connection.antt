-- ===== src/Server/Connection.antt =====
-- `handle_connection`: one client, from its acceptance to its end.
pub mod Defs
pub mod Failures
