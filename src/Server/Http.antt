-- ===== src/Server/Http.antt =====
-- Requests over HTTP: CONNECT and the requests that are passed on.
pub mod Parse
pub mod Defs
pub mod Authority
pub mod Reads
pub mod ConnectText
pub mod Tunnel
pub mod Serves
