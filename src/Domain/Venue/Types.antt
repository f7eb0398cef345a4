-- ===== src/Domain/Venue/Types.antt =====
-- The entity of crates/core/src/domain/venue.rs, and what storage makes it of.
use valqeron.Base.{Option}
use valqeron.Domain.Ids.{VenueId}
use valqeron.Domain.Labels.{VenueStatus}
use valqeron.Domain.Names.{VenueName}
use valqeron.Identifiers.Mic.{Mic}

pub record Venue (Time : Type 0) : Type 0 where
  pub id : VenueId
  pub mic : Mic
  pub status : VenueStatus
  pub created_at : Time
  pub name : Option VenueName

unfoldable pub reconstitute :
    {Time : Type 0} → VenueId → Mic → VenueStatus → Time → Option VenueName → Venue Time
reconstitute id mic status created_at name = record {
  id = id;
  mic = mic;
  status = status;
  created_at = created_at;
  name = name;
}
