-- ===== src/Resolver.antt =====
-- src/etw_resolver.rs: which program a connection comes from.
pub mod Netstat
pub mod Cache
pub mod Defs
pub mod Lookup
pub mod Trace
pub mod Race
