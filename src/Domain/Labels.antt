-- ===== src/Domain/Labels.antt =====
-- The states, kinds and roles of the domain, and their texts.
pub mod IssuerStatuses
pub mod SecurityKinds
pub mod SecurityStatuses
pub mod VenueStatuses
pub mod ListingRoles
pub mod ListingStatuses
pub use IssuerStatuses.{IssuerStatus}
pub use SecurityKinds.{SecurityKind}
pub use SecurityStatuses.{SecurityStatus}
pub use VenueStatuses.{VenueStatus}
pub use ListingRoles.{ListingRole}
pub use ListingStatuses.{ListingStatus}
