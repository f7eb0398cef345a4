-- ===== src/Domain/Issuer.antt =====
-- crates/core/src/domain/issuer.rs
pub mod Types
pub mod Builder
pub mod Build
pub mod Patch
pub mod Service
pub mod Register
