-- ===== src/Domain/Security.antt =====
-- crates/core/src/domain/security.rs
pub mod Types
pub mod Builder
pub mod Build
pub mod Patch
pub mod Service
pub mod Register
