-- ===== src/Identifiers/Lei.antt =====
-- crates/core/src/identifiers/lei.rs: ISO 17442 legal entity identifiers and their MOD 97-10
-- check digits. An array `[u8; 20]` is a byte list; the theorems that need its length say so.
mod Defs
pub mod Residue
pub mod Format
pub mod Errors
pub mod Slips
unfoldable pub use Defs.*
