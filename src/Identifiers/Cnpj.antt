-- ===== src/Identifiers/Cnpj.antt =====
-- crates/core/src/identifiers/cnpj.rs: Brazilian company numbers, their two modulo 11 check digits
-- and their punctuated form. An array `[u8; 14]` is a byte list; the theorems that need its length
-- say so.
mod Defs
pub mod Weights
pub mod Format
pub mod RoundTrip
unfoldable pub use Defs.*
