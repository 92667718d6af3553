-- ===== src/Server/Socks5.antt =====
-- `handle_socks5`: SOCKS5 without authentication.
pub mod Defs
pub mod Reads
pub mod Serves
