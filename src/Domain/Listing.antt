-- ===== src/Domain/Listing.antt =====
-- crates/core/src/domain/listing.rs
pub mod Types
pub mod Builder
pub mod Build
pub mod Patch
pub mod Service
pub mod Register
pub mod Market
