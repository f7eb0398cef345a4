-- ===== src/Domain/Listing/Market.antt =====
-- The order that registrations keep among the active listings.
use valqeron.Base.{◌≡◌, List, [], ◌∷◌, Result, ok, err, All}
use valqeron.Domain.Labels.{ListingRole, ListingStatus}
use valqeron.Domain.Listing.Register.{
  Tickers, Lists, IsPrimaryOf, IsFree, IsFaithful, ListingOutcome, register_listing_outcome,
}
use valqeron.Domain.Listing.Service.{ListingRepository, RegisterListingError, register_listing}
use valqeron.Domain.Listing.Types.{Listing}
use valqeron.Domain.Security.Service.{SecurityRepository}
use valqeron.Domain.Steps.{Pairwise}
use valqeron.Domain.Venue.Service.{VenueRepository}

module _ {Time Date : Type 0} where
  -- Two active listings have not the same ticker on one venue, nor the same security on one venue,
  -- and are not both primary listings of one security.
  abbrev pub Agree : Listing Time Date → Listing Time Date → Type 0
  Agree x y =
      x.status ≡ ListingStatus.active
      → (¬ Tickers x.venue_id x.symbol y)
        × (¬ Lists x.security_id x.venue_id y)
        × (x.role ≡ ListingRole.primary → ¬ IsPrimaryOf x.security_id y)

  abbrev pub IsOrderly : List (Listing Time Date) → Type 0
  IsOrderly l = Pairwise Agree l

  Agree-IsFree :
      (l : Listing Time Date) (others : List (Listing Time Date))
      → IsFree l others
      → All (Agree l) others
  Agree-IsFree l [] free = tt
  Agree-IsFree l (y ∷ others) free = (
    λ _. (free.ticker.0, free.security.0, λ p. (free.primary p).0),
    Agree-IsFree l others (record {
      ticker = free.ticker.1;
      security = free.security.1;
      primary = λ p. (free.primary p).1;
    }),
  )

module _ {S Fault Time Date : Type 0} (repo : ListingRepository S Fault Time Date)
    (securities : SecurityRepository S Fault Time) (venues : VenueRepository S Fault Time)
    (contents : S → List (Listing Time Date)) where
  IsOrderly-ListingOutcome :
      (l : Listing Time Date) (s : S) (r : Result (Unit {0}) (RegisterListingError Fault))
      (after : S)
      → ListingOutcome repo securities venues contents l s (r, after)
      → IsOrderly (contents s)
      → IsOrderly (contents after)
  IsOrderly-ListingOutcome l s (ok _) after (e, _, _, free) h =
      rw e (Agree-IsFree l (contents s) free, h)
  IsOrderly-ListingOutcome l s (err x) after (e, _) h = rw e h

  -- Where the repository of listings keeps its promises, a registration, whether it succeeds or
  -- not, keeps the active listings free of conflicts: no two have one ticker on one venue, or
  -- one security on one venue, or are primary listings of one security.
  pub register_listing-IsOrderly :
      IsFaithful repo contents
      → (l : Listing Time Date) (s : S) → IsOrderly (contents s)
      → IsOrderly (contents (register_listing repo securities venues l s).1)
  register_listing-IsOrderly laws l s h =
      IsOrderly-ListingOutcome l s (register_listing repo securities venues l s).0
        (register_listing repo securities venues l s).1
        (register_listing_outcome repo securities venues contents laws l s) h
