-- ===== src/Server/Headers.antt =====
-- The header lines of an HTTP request, and the filter of the hop-by-hop headers.
pub mod Defs
pub mod Lines
pub mod Filter
pub mod Twice
