-- ===== src/Text.antt =====
-- Text as its bytes.
mod Bytes
pub mod Split
pub mod Decimal
unfoldable pub use Bytes.*
