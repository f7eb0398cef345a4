-- ===== src/Domain/Venue/Service.antt =====
-- The repository trait and the service of crates/core/src/domain/venue.rs. A query leaves the store
-- as it is.
use valqeron.Base.{ℕ, Bool, Option, List, Result}
use valqeron.Domain.Common.{Versioned, WriteOutcome}
use valqeron.Domain.Ids.{VenueId}
use valqeron.Domain.Steps.{Step, ◌>>◌, command, check}
use valqeron.Domain.Venue.Patch.{VenuePatch}
use valqeron.Domain.Venue.Types.{Venue}
use valqeron.Identifiers.CountryCode.{CountryCode}
use valqeron.Identifiers.Mic.{Mic}

pub record VenueRepository (S Fault Time : Type 0) : Type 0 where
  pub find_by_id : VenueId → S → Result (Option (Versioned (Venue Time))) Fault
  pub find_by_mic : Mic → S → Result (Option (Versioned (Venue Time))) Fault
  pub list_all : S → Result (List (Versioned (Venue Time))) Fault
  pub list_by_country : CountryCode → S → Result (List (Versioned (Venue Time))) Fault
  pub list_paged : Option VenueId → ℕ → S → Result (List (Versioned (Venue Time))) Fault
  pub exists : VenueId → S → Result Bool Fault
  pub exists_by_mic : Mic → S → Result Bool Fault
  pub insert : Venue Time → S → Result (Unit {0}) Fault × S
  pub apply_patch : VenueId → ℕ → VenuePatch → S → Result WriteOutcome Fault × S
  pub update : Venue Time → ℕ → S → Result WriteOutcome Fault × S
  pub delete : VenueId → ℕ → S → Result WriteOutcome Fault × S

pub data RegisterVenueError (Fault : Type 0) : Type 0 where
  duplicate_mic : RegisterVenueError Fault
  storage : Fault → RegisterVenueError Fault

module _ {S Fault Time : Type 0} (repo : VenueRepository S Fault Time) where
  unfoldable pub register_venue : Venue Time → Step S (RegisterVenueError Fault) (Unit {0})
  register_venue venue = do
    check storage (repo.exists_by_mic venue.mic) (λ found. found) duplicate_mic
    command storage (repo.insert venue)
