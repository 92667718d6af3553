-- ===== src/Net/Stream.antt =====
-- A TCP stream as one side of the program sees it, and the reads and writes on it.
mod Defs
pub mod Laws
unfoldable pub use Defs.*
