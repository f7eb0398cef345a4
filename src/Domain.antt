-- ===== src/Domain.antt =====
-- crates/core/src/domain and crates/core/src/common.rs: issuers, securities, venues and listings.
pub mod Common
pub mod Ids
pub mod Names
pub mod Symbols
pub mod Labels
pub mod Ratio
pub mod Steps
pub mod Issuer
pub mod Security
pub mod Venue
pub mod Listing
