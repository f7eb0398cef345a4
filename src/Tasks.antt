-- ===== src/Tasks.antt =====
-- crates/core/src/tasks.rs: background tasks and their attempts.
mod Defs
pub mod Attempts
unfoldable pub use Defs.*
