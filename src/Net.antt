-- ===== src/Net.antt =====
-- What the program uses of the network: addresses and their text, and byte streams.
pub mod Addr
pub mod Error
pub mod Ipv4
pub mod Ipv6
pub mod Stream
pub mod HeaderLoop
