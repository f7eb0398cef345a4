-- ===== src/Identifiers/Mic.antt =====
-- crates/core/src/identifiers/mic.rs: ISO 10383 market identifiers, looked up in a registry that the
-- build generates, which is a parameter.
mod Defs
pub mod Format
unfoldable pub use Defs.*
