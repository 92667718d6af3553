-- ===== src/Text.antt =====
-- Text as the program handles it: a `&str`, a `String` or a `&[u8]` is the list of its bytes.
-- This module and its children write out what the source uses of Rust's `str` and `[u8]`.
mod Slices
pub mod Utf16
pub mod Decimal
pub mod Utf8
pub mod Words
pub mod Pieces
pub use Slices.*
