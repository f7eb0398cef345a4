-- ===== src/Domain/Venue/Builder.antt =====
-- The builder of crates/core/src/domain/venue.rs: its fields and setters. The type of points in time is a parameter.
use valqeron.Base.{Option, none, some}
use valqeron.Domain.Ids.{VenueId}
use valqeron.Domain.Labels.{VenueStatus}
use valqeron.Domain.Names.{VenueName}
use valqeron.Identifiers.Mic.{Mic}

pub record VenueBuilder (Time : Type 0) : Type 0 where
  pub mic : Mic
  pub id : Option VenueId
  pub status : Option VenueStatus
  pub created_at : Option Time
  pub name : Option VenueName

module _ {Time : Type 0} where
  abbrev pub new : Mic → VenueBuilder Time
  new mic = record { mic = mic; id = none; status = none; created_at = none; name = none }

  unfoldable pub id : VenueId → VenueBuilder Time → VenueBuilder Time
  id value builder = record builder { id = some value }

  unfoldable pub status : VenueStatus → VenueBuilder Time → VenueBuilder Time
  status value builder = record builder { status = some value }

  unfoldable pub created_at : Time → VenueBuilder Time → VenueBuilder Time
  created_at value builder = record builder { created_at = some value }

  unfoldable pub name : VenueName → VenueBuilder Time → VenueBuilder Time
  name value builder = record builder { name = some value }
