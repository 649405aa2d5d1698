-- ===== src/Text.antt =====
-- Rust's `str` as its UTF-8 bytes, with the methods of the standard library that the update
-- modules call: equality, `starts_with`, `ends_with`, `contains`, `split`, `trim`, `parse::<u64>`.
mod Laws
mod Decimal
pub use Laws.*
pub use Decimal.*
mod Lines
unfoldable pub use Lines.*
pub mod Bytes
unfoldable pub use Bytes.*
