-- ===== src/Sqlite.antt =====
-- crates/infrastructure/src/sqlite
pub mod Support
pub mod Sql
pub mod Session
pub mod Retry
pub mod Table
pub mod Schema
pub mod Columns
pub mod Issuers
pub mod Securities
pub mod Histories
pub mod Ordering
pub mod Paging
