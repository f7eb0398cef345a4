-- ===== src/Engine.antt =====
-- crates/engine
pub mod Lifecycle
