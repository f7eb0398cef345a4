-- ===== src/Domain/Venue/Register.antt =====
-- What the registration of a venue does to a store, given what its repository promises.
use valqeron.Base.{◌≡◌, ◌≢◌, refl, ap, ◌∙◌, true, false, List, ◌∷◌, Result, ok, err, All}
use valqeron.Domain.Steps.{check-rule, command-rule, command, Any}
use valqeron.Domain.Venue.Service.{
  VenueRepository, RegisterVenueError, duplicate_mic, register_venue,
}
use valqeron.Domain.Venue.Types.{Venue}
use valqeron.Identifiers.Mic.{Mic}

pub record IsFaithful {S Fault Time : Type 0} (repo : VenueRepository S Fault Time)
    (venues : S → List (Venue Time)) : Type 0 where
  pub free :
      (mic : Mic) (s : S) → repo.exists_by_mic mic s ≡ ok false → All (λ v. mic ≢ v.mic) (venues s)
  pub taken :
      (mic : Mic) (s : S) → repo.exists_by_mic mic s ≡ ok true → Any (λ v. mic ≡ v.mic) (venues s)
  pub inserted :
      (venue : Venue Time) (s : S)
      → (repo.insert venue s).0 ≡ ok tt
      → venues (repo.insert venue s).1 ≡ venue ∷ venues s
  pub not_inserted :
      (venue : Venue Time) (s : S) {fault : Fault}
      → (repo.insert venue s).0 ≡ err fault
      → venues (repo.insert venue s).1 ≡ venues s

module _ {S Fault Time : Type 0} (repo : VenueRepository S Fault Time)
    (venues : S → List (Venue Time)) where
  -- What a registration came to.
  abbrev pub VenueOutcome :
      Venue Time → S → Result (Unit {0}) (RegisterVenueError Fault) × S → Type 0
  VenueOutcome v s (ok _, after) =
      (venues after ≡ v ∷ venues s) × All (λ w. v.mic ≢ w.mic) (venues s)
  VenueOutcome v s (err duplicate_mic, after) =
      (venues after ≡ venues s) × Any (λ w. v.mic ≡ w.mic) (venues s)
  VenueOutcome v s (err (RegisterVenueError.storage fault), after) = venues after ≡ venues s

  -- Where the repository keeps its promises, a registration adds a venue whose market identifier
  -- no other one has, or changes nothing and reports that it is taken or a fault of the store.
  pub register_venue_outcome :
      IsFaithful repo venues → (v : Venue Time) (s : S) → VenueOutcome v s (register_venue repo v s)
  unfolding register_venue
  register_venue_outcome laws v s =
      check-rule (VenueOutcome v s) RegisterVenueError.storage (repo.exists_by_mic v.mic)
        (λ found. found) duplicate_mic (command RegisterVenueError.storage (repo.insert v)) s
        (λ b found n.
          let free = laws.free v.mic s (found ∙ ap ok n) in
          command-rule (VenueOutcome v s) RegisterVenueError.storage (repo.insert v) s
            (λ u worked. (laws.inserted v s worked, free))
            (λ f failed. laws.not_inserted v s failed))
        (λ b found y. (refl, laws.taken v.mic s (found ∙ ap ok y))) (λ f. refl)
