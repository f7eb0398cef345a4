-- ===== src/Identifiers/Isin.antt =====
-- crates/core/src/identifiers/isin.rs: ISO 6166 securities identifiers and their Luhn check digit.
-- An array `[u8; 12]` is a byte list; the theorems that need its length say so. The `u8` and `u32`
-- operations wrap, as in a release build.
mod Defs
pub mod Luhn
pub mod Format
unfoldable pub use Defs.*
