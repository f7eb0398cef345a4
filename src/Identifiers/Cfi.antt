-- ===== src/Identifiers/Cfi.antt =====
-- crates/core/src/identifiers/cfi.rs: ISO 10962 classifications, read against a table of categories
-- that the build generates, which is a parameter.
mod Defs
pub mod Tables
pub mod Format
unfoldable pub use Defs.*
