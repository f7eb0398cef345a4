-- ===== src/Domain/Venue/Build.antt =====
-- `VenueBuilder::build` of crates/core/src/domain/venue.rs. A fresh id and the present time, which
-- the source makes where a field is unset, are arguments.
use valqeron.Domain.Common.{unwrap_or}
use valqeron.Domain.Ids.{VenueId}
use valqeron.Domain.Labels.VenueStatuses as Statuses
use valqeron.Domain.Venue.Builder.{VenueBuilder}
use valqeron.Domain.Venue.Types.{Venue}

module _ {Time : Type 0} where
  unfoldable pub build : VenueId → Time → VenueBuilder Time → Venue Time
  build fresh now builder = record {
    id = unwrap_or builder.id fresh;
    mic = builder.mic;
    status = unwrap_or builder.status Statuses.default;
    created_at = unwrap_or builder.created_at now;
    name = builder.name;
  }
