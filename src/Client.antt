-- ===== src/Client.antt =====
-- src/proxy_client.rs: the upstream proxy of a rule, and the handshakes with it.
pub mod Url
pub mod Socks5
pub mod HttpConnect
pub mod Connect
pub mod Answers
