-- ===== src/Domain/Listing/Types.antt =====
-- The entity of crates/core/src/domain/listing.rs, and what storage makes it of.
use valqeron.Base.{Option}
use valqeron.Domain.Ids.{ListingId, SecurityId, VenueId}
use valqeron.Domain.Labels.{ListingRole, ListingStatus}
use valqeron.Domain.Names.{MarketSegment}
use valqeron.Domain.Symbols.{CurrencyCode, TickerSymbol}

pub record Listing (Time Date : Type 0) : Type 0 where
  pub id : ListingId
  pub security_id : SecurityId
  pub venue_id : VenueId
  pub symbol : TickerSymbol
  pub role : ListingRole
  pub status : ListingStatus
  pub created_at : Time
  pub currency : Option CurrencyCode
  pub segment : Option MarketSegment
  pub listed_on : Option Date
  pub delisted_on : Option Date

pub record ListingSnapshot (Time Date : Type 0) : Type 0 where
  pub id : ListingId
  pub security_id : SecurityId
  pub venue_id : VenueId
  pub symbol : TickerSymbol
  pub role : ListingRole
  pub status : ListingStatus
  pub created_at : Time
  pub currency : Option CurrencyCode
  pub segment : Option MarketSegment
  pub listed_on : Option Date
  pub delisted_on : Option Date

unfoldable pub reconstitute : {Time Date : Type 0} → ListingSnapshot Time Date → Listing Time Date
reconstitute snapshot = record {
  id = snapshot.id;
  security_id = snapshot.security_id;
  venue_id = snapshot.venue_id;
  symbol = snapshot.symbol;
  role = snapshot.role;
  status = snapshot.status;
  created_at = snapshot.created_at;
  currency = snapshot.currency;
  segment = snapshot.segment;
  listed_on = snapshot.listed_on;
  delisted_on = snapshot.delisted_on;
}
