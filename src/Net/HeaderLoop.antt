-- ===== src/Net/HeaderLoop.antt =====
-- The loop that reads until the end of HTTP headers, as src/proxy_server.rs (`read_http_headers`)
-- and src/proxy_client.rs (`http_connect`) both run it.
pub mod Defs
mod Rounds
pub mod Found
pub mod Refused
