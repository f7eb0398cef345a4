-- ===== src/Domain/Venue.antt =====
-- crates/core/src/domain/venue.rs
pub mod Types
pub mod Builder
pub mod Build
pub mod Patch
pub mod Service
pub mod Register
