-- ===== src/Version.antt =====
-- `NumericVersion`, which server/src/update_state.rs and server/src/update_discovery.rs both
-- declare with the same fields and the same derived order.
mod Order
pub use Order.*
pub mod Numeric
unfoldable pub use Numeric.*
