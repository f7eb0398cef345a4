-- ===== src/Identifiers/Fixed.antt =====
-- What the identifier modules of crates/core/src/identifiers share.
mod Defs
mod Normalize
mod Classes
unfoldable pub use Defs.{fill, normalize, check_each}
pub use Normalize.*
pub use Classes.*
