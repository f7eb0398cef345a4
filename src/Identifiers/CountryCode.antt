-- ===== src/Identifiers/CountryCode.antt =====
-- crates/core/src/identifiers/country_code.rs: ISO 3166-1 country codes, looked up in a bitmap that
-- is built from the table of assigned codes.
mod Table
mod Defs
pub mod Membership
pub mod Format
unfoldable pub use Table.*
unfoldable pub use Defs.*
