-- ===== src/Server.antt =====
-- src/proxy_server.rs: the inbound protocols, the choice of the target, and the relay.
pub mod Replies
pub mod Target
pub mod Handshake
pub mod Socks4
pub mod Socks5
pub mod Headers
pub mod Http
pub mod Relay
pub mod Connection
pub mod Interop
pub mod Accept
pub mod Naming
