-- ===== src/Domain/Listing/Register.antt =====
-- What the registration of a listing does to a store, given what the repository of listings
-- promises.
use valqeron.Base.{
  ◌≡◌, ◌⊎◌, refl, ap, ◌∙◌, Bool, true, false, not, Option, none, some, List, ◌∷◌, Result, ok, err,
  All, inl, inr,
}
use valqeron.Domain.Common.{Versioned}
use valqeron.Domain.Ids.{SecurityId, VenueId}
use valqeron.Domain.Labels.{ListingRole, ListingStatus, VenueStatus}
use valqeron.Domain.Labels.VenueStatuses.{is_active}
use valqeron.Domain.Listing.Service.{
  ListingRepository, RegisterListingError, unknown_security, venue_not_active,
  ticker_already_listed, security_already_listed_on_venue, primary_listing_already_exists,
  lacks_active, check_primary, register_listing,
}
use valqeron.Domain.Listing.Types.{Listing}
use valqeron.Domain.Security.Service.{SecurityRepository}
use valqeron.Domain.Steps.{Step, ◌>>◌, check, command, check-rule, command-rule, Any}
use valqeron.Domain.Symbols.{TickerSymbol}
use valqeron.Domain.Venue.Service.{VenueRepository}
use valqeron.Domain.Venue.Types.{Venue}

module _ {Time Date : Type 0} where
  -- An active listing of a ticker on a venue.
  abbrev pub Tickers : VenueId → TickerSymbol → Listing Time Date → Type 0
  Tickers venue_id symbol y =
      (y.status ≡ ListingStatus.active) × (y.venue_id ≡ venue_id) × (y.symbol ≡ symbol)

  -- An active listing of a security on a venue.
  abbrev pub Lists : SecurityId → VenueId → Listing Time Date → Type 0
  Lists security_id venue_id y =
      (y.status ≡ ListingStatus.active) × (y.security_id ≡ security_id) × (y.venue_id ≡ venue_id)

  -- An active primary listing of a security.
  abbrev pub IsPrimaryOf : SecurityId → Listing Time Date → Type 0
  IsPrimaryOf security_id y =
      (y.status ≡ ListingStatus.active)
      × (y.role ≡ ListingRole.primary)
      × (y.security_id ≡ security_id)

  -- No listing of a store stands in the way of a new one.
  pub record IsFree (listing : Listing Time Date) (others : List (Listing Time Date)) : Type 0 where
    pub ticker : All (λ y. ¬ Tickers listing.venue_id listing.symbol y) others
    pub security : All (λ y. ¬ Lists listing.security_id listing.venue_id y) others
    pub primary :
        listing.role ≡ ListingRole.primary → All (λ y. ¬ IsPrimaryOf listing.security_id y) others

-- What a repository promises of the listings in its store.
pub record IsFaithful {S Fault Time Date : Type 0} (repo : ListingRepository S Fault Time Date)
    (contents : S → List (Listing Time Date)) : Type 0 where
  pub ticker_free :
      (v : VenueId) (t : TickerSymbol) (s : S)
      → repo.exists_active_by_venue_and_symbol v t s ≡ ok false
      → All (λ y. ¬ Tickers v t y) (contents s)
  pub ticker_taken :
      (v : VenueId) (t : TickerSymbol) (s : S)
      → repo.exists_active_by_venue_and_symbol v t s ≡ ok true
      → Any (Tickers v t) (contents s)
  pub security_free :
      (c : SecurityId) (v : VenueId) (s : S)
      → repo.exists_active_for_security_on_venue c v s ≡ ok false
      → All (λ y. ¬ Lists c v y) (contents s)
  pub security_taken :
      (c : SecurityId) (v : VenueId) (s : S)
      → repo.exists_active_for_security_on_venue c v s ≡ ok true
      → Any (Lists c v) (contents s)
  pub primary_free :
      (c : SecurityId) (s : S)
      → repo.exists_active_primary_for_security c s ≡ ok false
      → All (λ y. ¬ IsPrimaryOf c y) (contents s)
  pub primary_taken :
      (c : SecurityId) (s : S)
      → repo.exists_active_primary_for_security c s ≡ ok true
      → Any (IsPrimaryOf c) (contents s)
  pub inserted :
      (listing : Listing Time Date) (s : S)
      → (repo.insert listing s).0 ≡ ok tt
      → contents (repo.insert listing s).1 ≡ listing ∷ contents s
  pub not_inserted :
      (listing : Listing Time Date) (s : S) {fault : Fault}
      → (repo.insert listing s).0 ≡ err fault
      → contents (repo.insert listing s).1 ≡ contents s

status-cases :
    (v : VenueStatus)
    → ((not (is_active v) ≡ false) × (v ≡ VenueStatus.active))
      ⊎ ((not (is_active v) ≡ true) × (v ≡ VenueStatus.retired))
status-cases VenueStatus.active = inl (refl, refl)
status-cases VenueStatus.retired = inr (refl, refl)

venue_active :
    {Time : Type 0} (o : Option (Versioned (Venue Time)))
    → lacks_active o ≡ false
    → (v : Versioned (Venue Time)) × (o ≡ some v) × (v.content.status ≡ VenueStatus.active)
venue_active none h = absurd (cc h)
venue_active (some v) h = elim (status-cases v.content.status) [
  | inl (_, a) ↦ (v, refl, a)
  | inr (n, _) ↦ absurd (cc (h, n))
]

venue_inactive :
    {Time : Type 0} (o : Option (Versioned (Venue Time)))
    → lacks_active o ≡ true
    → (o ≡ none)
      ⊎ ((v : Versioned (Venue Time)) × (o ≡ some v) × (v.content.status ≡ VenueStatus.retired))
venue_inactive none h = inl refl
venue_inactive (some v) h = elim (status-cases v.content.status) [
  | inl (n, _) ↦ absurd (cc (h, n))
  | inr (_, r) ↦ inr (v, refl, r)
]

not-eq-true : (b : Bool) → not b ≡ true → b ≡ false
not-eq-true false h = refl
not-eq-true true h = cc h

not-eq-false : (b : Bool) → not b ≡ false → b ≡ true
not-eq-false true h = refl
not-eq-false false h = cc h

module _ {S Fault Time Date : Type 0} (repo : ListingRepository S Fault Time Date)
    (securities : SecurityRepository S Fault Time) (venues : VenueRepository S Fault Time)
    (contents : S → List (Listing Time Date)) where
  -- Why a registration is refused.
  abbrev pub Refusal : Listing Time Date → S → RegisterListingError Fault → Type 0
  Refusal l s unknown_security = securities.exists l.security_id s ≡ ok false
  Refusal l s venue_not_active =
      (venues.find_by_id l.venue_id s ≡ ok none)
      ⊎ ((v : Versioned (Venue Time)) × (venues.find_by_id l.venue_id s ≡ ok (some v))
          × (v.content.status ≡ VenueStatus.retired))
  Refusal l s ticker_already_listed = Any (Tickers l.venue_id l.symbol) (contents s)
  Refusal l s security_already_listed_on_venue = Any (Lists l.security_id l.venue_id) (contents s)
  Refusal l s primary_listing_already_exists =
      (l.role ≡ ListingRole.primary) × Any (IsPrimaryOf l.security_id) (contents s)
  Refusal l s (RegisterListingError.storage fault) = Unit

  -- What a registration came to.
  abbrev pub ListingOutcome :
      Listing Time Date → S → Result (Unit {0}) (RegisterListingError Fault) × S → Type 0
  ListingOutcome l s (ok _, after) =
      (contents after ≡ l ∷ contents s)
      × (securities.exists l.security_id s ≡ ok true)
      × ((v : Versioned (Venue Time)) × (venues.find_by_id l.venue_id s ≡ ok (some v))
          × (v.content.status ≡ VenueStatus.active))
      × IsFree l (contents s)
  ListingOutcome l s (err e, after) = (contents after ≡ contents s) × Refusal l s e

  primary_rule :
      IsFaithful repo contents
      → (Q : Result (Unit {0}) (RegisterListingError Fault) × S → Type 0) (role : ListingRole)
        (security_id : SecurityId) (k : Step S (RegisterListingError Fault) (Unit {0})) (s : S)
      → ((role ≡ ListingRole.primary → All (λ y. ¬ IsPrimaryOf security_id y) (contents s))
          → Q (k s))
      → ((role ≡ ListingRole.primary) × Any (IsPrimaryOf security_id) (contents s)
          → Q (err primary_listing_already_exists, s))
      → ((f : Fault) → Q (err (RegisterListingError.storage f), s))
      → Q ((check_primary repo securities venues role security_id >> k) s)
  unfolding check_primary
  primary_rule laws Q ListingRole.primary security_id k s next stop fault =
      check-rule Q RegisterListingError.storage
        (repo.exists_active_primary_for_security security_id) (λ found. found)
        primary_listing_already_exists k s
        (λ b found n. next (λ _. laws.primary_free security_id s (found ∙ ap ok n)))
        (λ b found y. stop (refl, laws.primary_taken security_id s (found ∙ ap ok y))) fault
  primary_rule laws Q ListingRole.secondary security_id k s next stop fault = next (λ e. cc e)

  abbrev check_security : Listing Time Date → Step S (RegisterListingError Fault) (Unit {0})
  check_security l =
      check RegisterListingError.storage
        (repo.exists_active_for_security_on_venue l.security_id l.venue_id) (λ found. found)
        security_already_listed_on_venue

  abbrev check_ticker : Listing Time Date → Step S (RegisterListingError Fault) (Unit {0})
  check_ticker l =
      check RegisterListingError.storage
        (repo.exists_active_by_venue_and_symbol l.venue_id l.symbol) (λ found. found)
        ticker_already_listed

  abbrev check_venue : Listing Time Date → Step S (RegisterListingError Fault) (Unit {0})
  check_venue l =
      check RegisterListingError.storage (venues.find_by_id l.venue_id) lacks_active
        venue_not_active

  abbrev insert : Listing Time Date → Step S (RegisterListingError Fault) (Unit {0})
  insert l = command RegisterListingError.storage (repo.insert l)

  abbrev primary_and_insert : Listing Time Date → Step S (RegisterListingError Fault) (Unit {0})
  primary_and_insert l = check_primary repo securities venues l.role l.security_id >> insert l

  Refusal-find :
      (l : Listing Time Date) (s : S) (o : Option (Versioned (Venue Time)))
      → venues.find_by_id l.venue_id s ≡ ok o
      → (o ≡ none)
        ⊎ ((v : Versioned (Venue Time)) × (o ≡ some v) × (v.content.status ≡ VenueStatus.retired))
      → Refusal l s venue_not_active
  Refusal-find l s o found (inl n) = inl (found ∙ ap ok n)
  Refusal-find l s o found (inr (v, is, retired)) = inr (v, found ∙ ap ok is, retired)

  insert_step :
      IsFaithful repo contents
      → (l : Listing Time Date) (s : S) → securities.exists l.security_id s ≡ ok true
      → (v : Versioned (Venue Time)) × (venues.find_by_id l.venue_id s ≡ ok (some v))
        × (v.content.status ≡ VenueStatus.active)
      → IsFree l (contents s)
      → ListingOutcome l s (insert l s)
  insert_step laws l s known active free =
      command-rule (ListingOutcome l s) RegisterListingError.storage (repo.insert l) s
        (λ u worked. (laws.inserted l s worked, known, active, free))
        (λ f failed. (laws.not_inserted l s failed, tt))

  primary_step :
      IsFaithful repo contents
      → (l : Listing Time Date) (s : S) → securities.exists l.security_id s ≡ ok true
      → (v : Versioned (Venue Time)) × (venues.find_by_id l.venue_id s ≡ ok (some v))
        × (v.content.status ≡ VenueStatus.active)
      → All (λ y. ¬ Tickers l.venue_id l.symbol y) (contents s)
      → All (λ y. ¬ Lists l.security_id l.venue_id y) (contents s)
      → ListingOutcome l s (primary_and_insert l s)
  primary_step laws l s known active t c =
      primary_rule laws (ListingOutcome l s) l.role l.security_id (insert l) s
        (λ p. insert_step laws l s known active (record { ticker = t; security = c; primary = p }))
        (λ taken. (refl, taken)) (λ f. (refl, tt))

  security_step :
      IsFaithful repo contents
      → (l : Listing Time Date) (s : S) → securities.exists l.security_id s ≡ ok true
      → (v : Versioned (Venue Time)) × (venues.find_by_id l.venue_id s ≡ ok (some v))
        × (v.content.status ≡ VenueStatus.active)
      → All (λ y. ¬ Tickers l.venue_id l.symbol y) (contents s)
      → ListingOutcome l s ((check_security l >> primary_and_insert l) s)
  security_step laws l s known active t =
      check-rule (ListingOutcome l s) RegisterListingError.storage
        (repo.exists_active_for_security_on_venue l.security_id l.venue_id) (λ found. found)
        security_already_listed_on_venue (primary_and_insert l) s
        (λ b found n.
          primary_step laws l s known active t
            (laws.security_free l.security_id l.venue_id s (found ∙ ap ok n)))
        (λ b found y. (refl, laws.security_taken l.security_id l.venue_id s (found ∙ ap ok y)))
        (λ f. (refl, tt))

  venue_step :
      IsFaithful repo contents
      → (l : Listing Time Date) (s : S) → securities.exists l.security_id s ≡ ok true
      → ListingOutcome l s
          ((check_venue l >> (check_ticker l >> (check_security l >> primary_and_insert l))) s)
  venue_step laws l s known =
      check-rule (ListingOutcome l s) RegisterListingError.storage (venues.find_by_id l.venue_id)
        lacks_active venue_not_active (check_ticker l >> (check_security l >> primary_and_insert l))
        s
        (λ o found n.
          let (v, is, active) = venue_active o n in
          check-rule (ListingOutcome l s) RegisterListingError.storage
            (repo.exists_active_by_venue_and_symbol l.venue_id l.symbol) (λ found. found)
            ticker_already_listed (check_security l >> primary_and_insert l) s
            (λ b hit n.
              security_step laws l s known (v, found ∙ ap ok is, active)
                (laws.ticker_free l.venue_id l.symbol s (hit ∙ ap ok n)))
            (λ b hit y. (refl, laws.ticker_taken l.venue_id l.symbol s (hit ∙ ap ok y)))
            (λ f. (refl, tt)))
        (λ o found y. (refl, Refusal-find l s o found (venue_inactive o y))) (λ f. (refl, tt))

  -- Where the repository of listings keeps its promises, a registration adds a listing of a
  -- known security on an active venue that no active listing stands in the way of, or changes
  -- nothing and reports a fault of the store or which of these conditions fails.
  pub register_listing_outcome :
      IsFaithful repo contents
      → (l : Listing Time Date) (s : S)
      → ListingOutcome l s (register_listing repo securities venues l s)
  unfolding register_listing
  register_listing_outcome laws l s =
      check-rule (ListingOutcome l s) RegisterListingError.storage (securities.exists l.security_id)
        not unknown_security
        (check_venue l >> (check_ticker l >> (check_security l >> primary_and_insert l))) s
        (λ b known nb. venue_step laws l s (known ∙ ap ok (not-eq-false b nb)))
        (λ b known nb. (refl, known ∙ ap ok (not-eq-true b nb))) (λ f. (refl, tt))
