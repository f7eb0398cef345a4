-- ===== src/Examples/Stores.antt =====
-- Repositories over lists; those of venues and of listings keep what `IsFaithful` asks of each.
use valqeron.Base.{
  ℕ, ◌≡◌, ◌↔◌, refl, ap, Bool, true, false, ◌&&◌, ◌==◌, ==_iff, List, [], ◌∷◌, map, Option, none,
  some, ok, ok-injective, arith,
}
use valqeron.Text.{text_eq, text_eq_iff}
use valqeron.Domain.Common.{Versioned, WriteOutcome}
use valqeron.Domain.Ids.{SecurityId, VenueId}
use valqeron.Domain.Issuer.Types.{Issuer}
use valqeron.Domain.Labels.{ListingRole, ListingStatus}
use valqeron.Domain.Labels.ListingStatuses as ListingStatuses
use valqeron.Domain.Labels.ListingRoles as ListingRoles
use valqeron.Domain.Listing.Register as Listings
use valqeron.Domain.Listing.Service.{ListingRepository}
use valqeron.Domain.Listing.Types.{Listing}
use valqeron.Domain.Security.Service.{SecurityRepository}
use valqeron.Domain.Security.Types.{Security}
use valqeron.Domain.Steps.{any_of, All-any_of, Any-any_of}
use valqeron.Domain.Symbols.{TickerSymbol}
use valqeron.Domain.Venue.Register as Venues
use valqeron.Domain.Venue.Service.{VenueRepository}
use valqeron.Domain.Venue.Types.{Venue}
use valqeron.Identifiers.Isin.{Isin}
use valqeron.Identifiers.Mic.{Mic}

-- Times and dates are numbers.
pub record Store : Type 0 where
  pub issuers : List (Issuer ℕ)
  pub securities : List (Security ℕ)
  pub venues : List (Venue ℕ)
  pub listings : List (Listing ℕ ℕ)

module _ {A : Type 0} where
  -- The first item of an id.
  abbrev pub find : (A → Bool) → List A → Option (Versioned A)
  find p [] = none
  find p (x ∷ xs) = elim (p x) [
    | true ↦ some (record { content = x; version = 1 })
    | false ↦ find p xs
  ]

  abbrev pub all_of : List A → List (Versioned A)
  all_of xs = map (λ x. record { content = x; version = 1 }) xs

and_iff : (a b : Bool) → ((a && b) ≡ true) ↔ ((a ≡ true) × (b ≡ true))
and_iff a b = ground arith

abbrev isin_is : Isin → Option Isin → Bool
isin_is c none = false
isin_is c (some d) = text_eq d.bytes c.bytes

mic_is_iff : (m n : Mic) → (text_eq m.bytes n.bytes ≡ true) ↔ (m ≡ n)
mic_is_iff m n = (
  λ e. ap (λ b. record { bytes = b }) ((text_eq_iff m.bytes n.bytes).0 e),
  λ e. (text_eq_iff m.bytes n.bytes).1 (cc e),
)

symbol_is_iff : (m n : TickerSymbol) → (text_eq m.value n.value ≡ true) ↔ (m ≡ n)
symbol_is_iff m n = (
  λ e. ap (λ b. record { value = b }) ((text_eq_iff m.value n.value).0 e),
  λ e. (text_eq_iff m.value n.value).1 (cc e),
)

is_active_iff :
    (s : ListingStatus) → (ListingStatuses.is_active s ≡ true) ↔ (s ≡ ListingStatus.active)
is_active_iff ListingStatus.active = (λ _. refl, λ _. refl)
is_active_iff ListingStatus.suspended = (λ e. cc e, λ e. cc e)
is_active_iff ListingStatus.delisted = (λ e. cc e, λ e. cc e)

is_primary_iff : (r : ListingRole) → (ListingRoles.is_primary r ≡ true) ↔ (r ≡ ListingRole.primary)
is_primary_iff ListingRole.primary = (λ _. refl, λ _. refl)
is_primary_iff ListingRole.secondary = (λ e. cc e, λ e. cc e)

abbrev pub security_store : SecurityRepository Store Unit ℕ
security_store = record {
  find_by_id = λ id s. ok (find (λ x. x.id == id) s.securities);
  find_by_isin = λ c s. ok (find (λ x. isin_is c x.isin) s.securities);
  list_all = λ s. ok (all_of s.securities);
  list_by_issuer = λ id s. ok (all_of s.securities);
  list_paged = λ after limit s. ok (all_of s.securities);
  exists = λ id s. ok (any_of (λ x. x.id == id) s.securities);
  exists_by_isin = λ c s. ok (any_of (λ x. isin_is c x.isin) s.securities);
  insert = λ x s. (ok tt, record s { securities = x ∷ s.securities });
  apply_patch = λ id v p s. (ok WriteOutcome.missing, s);
  update = λ x v s. (ok WriteOutcome.missing, s);
  delete = λ id v s. (ok WriteOutcome.missing, s);
}

abbrev pub venue_store : VenueRepository Store Unit ℕ
venue_store = record {
  find_by_id = λ id s. ok (find (λ x. x.id == id) s.venues);
  find_by_mic = λ m s. ok (find (λ x. text_eq m.bytes x.mic.bytes) s.venues);
  list_all = λ s. ok (all_of s.venues);
  list_by_country = λ c s. ok (all_of s.venues);
  list_paged = λ after limit s. ok (all_of s.venues);
  exists = λ id s. ok (any_of (λ x. x.id == id) s.venues);
  exists_by_mic = λ m s. ok (any_of (λ x. text_eq m.bytes x.mic.bytes) s.venues);
  insert = λ x s. (ok tt, record s { venues = x ∷ s.venues });
  apply_patch = λ id v p s. (ok WriteOutcome.missing, s);
  update = λ x v s. (ok WriteOutcome.missing, s);
  delete = λ id v s. (ok WriteOutcome.missing, s);
}

pub venue_store-IsFaithful : Venues.IsFaithful venue_store (λ (s : Store). s.venues)
venue_store-IsFaithful = record {
  free = λ m s e.
      All-any_of (λ x. text_eq m.bytes x.mic.bytes) (λ x. m ≡ x.mic) (λ x. (mic_is_iff m x.mic).1)
        s.venues (ok-injective e);
  taken = λ m s e.
      Any-any_of (λ x. text_eq m.bytes x.mic.bytes) (λ x. m ≡ x.mic) (λ x. (mic_is_iff m x.mic).0)
        s.venues (ok-injective e);
  inserted = λ x s e. refl;
  not_inserted = λ x s e. cc e;
}

abbrev tickers : VenueId → TickerSymbol → Listing ℕ ℕ → Bool
tickers v t y =
    ListingStatuses.is_active y.status && (y.venue_id == v && text_eq y.symbol.value t.value)

tickers_iff :
    (v : VenueId) (t : TickerSymbol) (y : Listing ℕ ℕ)
    → (tickers v t y ≡ true) ↔ Listings.Tickers v t y
tickers_iff v t y = (
  λ e.
      let (a, r) = (and_iff _ _).0 e in
      let (b, c) = (and_iff _ _).0 r in
      ((is_active_iff y.status).0 a, (==_iff y.venue_id v).0 b, (symbol_is_iff y.symbol t).0 c),
  λ (a, b, c). (and_iff _ _).1 (
    (is_active_iff y.status).1 a,
    (and_iff _ _).1 ((==_iff y.venue_id v).1 b, (symbol_is_iff y.symbol t).1 c),
  ),
)

abbrev lists : SecurityId → VenueId → Listing ℕ ℕ → Bool
lists c v y = ListingStatuses.is_active y.status && (y.security_id == c && y.venue_id == v)

lists_iff :
    (c : SecurityId) (v : VenueId) (y : Listing ℕ ℕ) → (lists c v y ≡ true) ↔ Listings.Lists c v y
lists_iff c v y = (
  λ e.
      let (a, r) = (and_iff _ _).0 e in
      let (b, d) = (and_iff _ _).0 r in
      ((is_active_iff y.status).0 a, (==_iff y.security_id c).0 b, (==_iff y.venue_id v).0 d),
  λ (a, b, d). (and_iff _ _).1 (
    (is_active_iff y.status).1 a,
    (and_iff _ _).1 ((==_iff y.security_id c).1 b, (==_iff y.venue_id v).1 d),
  ),
)

abbrev is_primary_of : SecurityId → Listing ℕ ℕ → Bool
is_primary_of c y =
    ListingStatuses.is_active y.status && (ListingRoles.is_primary y.role && y.security_id == c)

is_primary_of_iff :
    (c : SecurityId) (y : Listing ℕ ℕ) → (is_primary_of c y ≡ true) ↔ Listings.IsPrimaryOf c y
is_primary_of_iff c y = (
  λ e.
      let (a, r) = (and_iff _ _).0 e in
      let (b, d) = (and_iff _ _).0 r in
      ((is_active_iff y.status).0 a, (is_primary_iff y.role).0 b, (==_iff y.security_id c).0 d),
  λ (a, b, d). (and_iff _ _).1 (
    (is_active_iff y.status).1 a,
    (and_iff _ _).1 ((is_primary_iff y.role).1 b, (==_iff y.security_id c).1 d),
  ),
)

abbrev pub listing_store : ListingRepository Store Unit ℕ ℕ
listing_store = record {
  find_by_id = λ id s. ok (find (λ x. x.id == id) s.listings);
  find_active_by_venue_and_symbol = λ v t s. ok (find (tickers v t) s.listings);
  list_all = λ s. ok (all_of s.listings);
  list_by_security = λ id s. ok (all_of s.listings);
  list_by_venue = λ id s. ok (all_of s.listings);
  list_paged = λ after limit s. ok (all_of s.listings);
  exists = λ id s. ok (any_of (λ x. x.id == id) s.listings);
  exists_active_by_venue_and_symbol = λ v t s. ok (any_of (tickers v t) s.listings);
  exists_active_for_security_on_venue = λ c v s. ok (any_of (lists c v) s.listings);
  exists_active_primary_for_security = λ c s. ok (any_of (is_primary_of c) s.listings);
  insert = λ x s. (ok tt, record s { listings = x ∷ s.listings });
  apply_patch = λ id v p s. (ok WriteOutcome.missing, s);
  update = λ x v s. (ok WriteOutcome.missing, s);
  delete = λ id v s. (ok WriteOutcome.missing, s);
}

pub listing_store-IsFaithful : Listings.IsFaithful listing_store (λ (s : Store). s.listings)
listing_store-IsFaithful = record {
  ticker_free = λ v t s e.
      All-any_of (tickers v t) (Listings.Tickers v t) (λ y. (tickers_iff v t y).1) s.listings
        (ok-injective e);
  ticker_taken = λ v t s e.
      Any-any_of (tickers v t) (Listings.Tickers v t) (λ y. (tickers_iff v t y).0) s.listings
        (ok-injective e);
  security_free = λ c v s e.
      All-any_of (lists c v) (Listings.Lists c v) (λ y. (lists_iff c v y).1) s.listings
        (ok-injective e);
  security_taken = λ c v s e.
      Any-any_of (lists c v) (Listings.Lists c v) (λ y. (lists_iff c v y).0) s.listings
        (ok-injective e);
  primary_free = λ c s e.
      All-any_of (is_primary_of c) (Listings.IsPrimaryOf c) (λ y. (is_primary_of_iff c y).1)
        s.listings (ok-injective e);
  primary_taken = λ c s e.
      Any-any_of (is_primary_of c) (Listings.IsPrimaryOf c) (λ y. (is_primary_of_iff c y).0)
        s.listings (ok-injective e);
  inserted = λ x s e. refl;
  not_inserted = λ x s e. cc e;
}
