-- ===== src/Server/Socks4.antt =====
-- `handle_socks4`: SOCKS4, and SOCKS4a with its host name.
pub mod Defs
mod Scan
mod Fields
pub mod Reads
pub mod Serves
