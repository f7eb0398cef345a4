-- ===== src/Sqlite/Securities.antt =====
-- crates/infrastructure/src/sqlite/repositories/securities.rs
pub mod Rows
pub mod Queries
pub mod Repository
pub mod Faithful
pub mod Changes
pub mod Versions
pub mod RoundTrip
pub mod Pages
