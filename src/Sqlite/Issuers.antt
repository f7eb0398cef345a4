-- ===== src/Sqlite/Issuers.antt =====
-- crates/infrastructure/src/sqlite/repositories/issuer.rs
pub mod Rows
pub mod Queries
pub mod Hydration
pub mod Repository
pub mod Faithful
pub mod Changes
pub mod Versions
pub mod Stale
pub mod RoundTrip
pub mod Pages
pub mod Eager
