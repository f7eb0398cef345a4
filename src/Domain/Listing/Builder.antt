-- ===== src/Domain/Listing/Builder.antt =====
-- The builder of crates/core/src/domain/listing.rs: its fields and setters. The type of points in time and of dates are parameters.
use valqeron.Base.{Option, none, some}
use valqeron.Domain.Ids.{ListingId, SecurityId, VenueId}
use valqeron.Domain.Labels.{ListingRole, ListingStatus}
use valqeron.Domain.Names.{MarketSegment}
use valqeron.Domain.Symbols.{CurrencyCode, TickerSymbol}

pub record ListingBuilder (Time Date : Type 0) : Type 0 where
  pub security_id : SecurityId
  pub venue_id : VenueId
  pub symbol : TickerSymbol
  pub id : Option ListingId
  pub role : Option ListingRole
  pub status : Option ListingStatus
  pub created_at : Option Time
  pub currency : Option CurrencyCode
  pub segment : Option MarketSegment
  pub listed_on : Option Date
  pub delisted_on : Option Date

module _ {Time Date : Type 0} where
  abbrev pub new : SecurityId → VenueId → TickerSymbol → ListingBuilder Time Date
  new security_id venue_id symbol = record {
    security_id = security_id;
    venue_id = venue_id;
    symbol = symbol;
    id = none;
    role = none;
    status = none;
    created_at = none;
    currency = none;
    segment = none;
    listed_on = none;
    delisted_on = none;
  }

  unfoldable pub id : ListingId → ListingBuilder Time Date → ListingBuilder Time Date
  id value builder = record builder { id = some value }

  unfoldable pub role : ListingRole → ListingBuilder Time Date → ListingBuilder Time Date
  role value builder = record builder { role = some value }

  unfoldable pub status : ListingStatus → ListingBuilder Time Date → ListingBuilder Time Date
  status value builder = record builder { status = some value }

  unfoldable pub created_at : Time → ListingBuilder Time Date → ListingBuilder Time Date
  created_at value builder = record builder { created_at = some value }

  unfoldable pub currency : CurrencyCode → ListingBuilder Time Date → ListingBuilder Time Date
  currency value builder = record builder { currency = some value }

  unfoldable pub segment : MarketSegment → ListingBuilder Time Date → ListingBuilder Time Date
  segment value builder = record builder { segment = some value }

  unfoldable pub listed_on : Date → ListingBuilder Time Date → ListingBuilder Time Date
  listed_on value builder = record builder { listed_on = some value }

  unfoldable pub delisted_on : Date → ListingBuilder Time Date → ListingBuilder Time Date
  delisted_on value builder = record builder { delisted_on = some value }
