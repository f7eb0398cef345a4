-- ===== src/Domain/Listing/Service.antt =====
-- The repository trait and the service of crates/core/src/domain/listing.rs. A query leaves the store
-- as it is. The three repositories stand on one store.
use valqeron.Base.{ℕ, Bool, true, not, Option, none, some, List, Result}
use valqeron.Domain.Common.{Versioned, WriteOutcome}
use valqeron.Domain.Ids.{ListingId, SecurityId, VenueId}
use valqeron.Domain.Labels.VenueStatuses as VenueStatuses
use valqeron.Domain.Labels.{ListingRole}
use valqeron.Domain.Listing.Patch.{ListingPatch}
use valqeron.Domain.Listing.Types.{Listing}
use valqeron.Domain.Security.Service.{SecurityRepository}
use valqeron.Domain.Steps.{Step, ◌>>◌, done, command, check}
use valqeron.Domain.Symbols.{TickerSymbol}
use valqeron.Domain.Venue.Service.{VenueRepository}
use valqeron.Domain.Venue.Types.{Venue}

pub record ListingRepository (S Fault Time Date : Type 0) : Type 0 where
  pub find_by_id : ListingId → S → Result (Option (Versioned (Listing Time Date))) Fault
  pub find_active_by_venue_and_symbol :
      VenueId → TickerSymbol → S → Result (Option (Versioned (Listing Time Date))) Fault
  pub list_all : S → Result (List (Versioned (Listing Time Date))) Fault
  pub list_by_security : SecurityId → S → Result (List (Versioned (Listing Time Date))) Fault
  pub list_by_venue : VenueId → S → Result (List (Versioned (Listing Time Date))) Fault
  pub list_paged : Option ListingId → ℕ → S → Result (List (Versioned (Listing Time Date))) Fault
  pub exists : ListingId → S → Result Bool Fault
  pub exists_active_by_venue_and_symbol : VenueId → TickerSymbol → S → Result Bool Fault
  pub exists_active_for_security_on_venue : SecurityId → VenueId → S → Result Bool Fault
  pub exists_active_primary_for_security : SecurityId → S → Result Bool Fault
  pub insert : Listing Time Date → S → Result (Unit {0}) Fault × S
  pub apply_patch : ListingId → ℕ → ListingPatch Date → S → Result WriteOutcome Fault × S
  pub update : Listing Time Date → ℕ → S → Result WriteOutcome Fault × S
  pub delete : ListingId → ℕ → S → Result WriteOutcome Fault × S

pub data RegisterListingError (Fault : Type 0) : Type 0 where
  unknown_security venue_not_active ticker_already_listed security_already_listed_on_venue
        primary_listing_already_exists :
      RegisterListingError Fault
  storage : Fault → RegisterListingError Fault

-- No venue, or one that is not active.
abbrev pub lacks_active : {Time : Type 0} → Option (Versioned (Venue Time)) → Bool
lacks_active none = true
lacks_active (some venue) = not (VenueStatuses.is_active venue.content.status)

module _ {S Fault Time Date : Type 0} (listings : ListingRepository S Fault Time Date)
    (securities : SecurityRepository S Fault Time) (venues : VenueRepository S Fault Time) where
  -- The check of a primary listing.
  unfoldable pub check_primary :
      ListingRole → SecurityId → Step S (RegisterListingError Fault) (Unit {0})
  check_primary ListingRole.primary security_id =
      check storage (listings.exists_active_primary_for_security security_id) (λ found. found)
        primary_listing_already_exists
  check_primary ListingRole.secondary security_id = done

  unfoldable pub register_listing :
      Listing Time Date → Step S (RegisterListingError Fault) (Unit {0})
  register_listing listing = do
    check storage (securities.exists listing.security_id) not unknown_security
    check storage (venues.find_by_id listing.venue_id) lacks_active venue_not_active
    check storage (listings.exists_active_by_venue_and_symbol listing.venue_id listing.symbol)
        (λ found. found) ticker_already_listed
    check storage
        (listings.exists_active_for_security_on_venue listing.security_id listing.venue_id)
        (λ found. found) security_already_listed_on_venue
    check_primary listing.role listing.security_id
    command storage (listings.insert listing)
