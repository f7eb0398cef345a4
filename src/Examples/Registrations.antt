-- ===== src/Examples/Registrations.antt =====
-- The registrations in a store with one issuer, one security, one venue and one listing.
use valqeron.Base.{ℕ, ◌≡◌, refl, [], ◌∷◌, some, none}
use valqeron.Text.{codes, text_eq}
use valqeron.Domain.Common.{not_loaded}
use valqeron.Domain.Issuer.Types.{Issuer}
use valqeron.Domain.Labels.{
  IssuerStatus, SecurityKind, SecurityStatus, VenueStatus, ListingRole, ListingStatus,
}
use valqeron.Domain.Listing.Market.{IsOrderly, register_listing-IsOrderly}
use valqeron.Domain.Listing.Register.{ListingOutcome, register_listing_outcome}
use valqeron.Domain.Listing.Service.{register_listing}
use valqeron.Domain.Listing.Types.{Listing}
use valqeron.Domain.Security.Types.{Security}
use valqeron.Domain.Venue.Types.{Venue}
use valqeron.Examples.Stores.{
  Store, security_store, venue_store, listing_store, listing_store-IsFaithful,
}

abbrev pub vale : Issuer ℕ
vale = record {
  id = 1;
  status = IssuerStatus.active;
  created_at = 0;
  name = some (codes "Vale");
  cnpj = some (record { bytes = codes "33592510000154" });
  lei = none;
  country_code = some (record { bytes = codes "BR" });
  securities = not_loaded;
}

abbrev pub vale_share : Security ℕ
vale_share = record {
  id = 10;
  issuer_id = 1;
  kind = SecurityKind.common_share;
  status = SecurityStatus.active;
  created_at = 0;
  name = none;
  isin = some (record { bytes = codes "BRVALEACNOR0" });
  cfi = none;
  underlying_security_id = none;
  dr_ratio = none;
}

abbrev pub vale_receipt : Security ℕ
vale_receipt = record vale_share {
  id = 11;
  kind = SecurityKind.depositary_receipt;
  isin = some (record { bytes = codes "US91912E1055" });
  underlying_security_id = some 10;
}

abbrev exchange : Venue ℕ
exchange = record {
  id = 20;
  mic = record { bytes = codes "BVMF" };
  status = VenueStatus.active;
  created_at = 0;
  name = none;
}

abbrev vale_listing : Listing ℕ ℕ
vale_listing = record {
  id = 30;
  security_id = 10;
  venue_id = 20;
  symbol = record { value = codes "VALE3" };
  role = ListingRole.primary;
  status = ListingStatus.active;
  created_at = 0;
  currency = none;
  segment = none;
  listed_on = none;
  delisted_on = none;
}

abbrev second_listing : Listing ℕ ℕ
second_listing = record vale_listing { id = 31; symbol = record { value = codes "VALE5" } }

abbrev store : Store
store = record {
  issuers = vale ∷ [];
  securities = vale_share ∷ [];
  venues = exchange ∷ [];
  listings = vale_listing ∷ [];
}

register_listing_outcome_example :
    ListingOutcome listing_store security_store venue_store
      (λ (s : Store). s.listings)
      second_listing
      store
      (register_listing listing_store security_store venue_store second_listing store)
register_listing_outcome_example =
    register_listing_outcome listing_store security_store venue_store (λ (s : Store). s.listings)
      listing_store-IsFaithful second_listing store

register_listing-IsOrderly_example :
    IsOrderly
      ((register_listing listing_store security_store venue_store second_listing store).1.listings)
register_listing-IsOrderly_example =
    register_listing-IsOrderly listing_store security_store venue_store (λ (s : Store). s.listings)
      listing_store-IsFaithful second_listing store (tt, tt)

-- The second primary listing of a security on one venue is refused, whatever its ticker.
second_listing_refused :
    (register_listing listing_store security_store venue_store second_listing store).1 ≡ store
unfolding register_listing text_eq
second_listing_refused = refl
