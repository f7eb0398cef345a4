-- ===== src/Domain/Venue/Patch.antt =====
-- The patch of crates/core/src/domain/venue.rs and its builder, whose type says whether a field was set.
use valqeron.Base.{Option, none, some, ◌≡◌, ◌⊎◌, inl, inr, refl}
use valqeron.Domain.Common.{PatchState, empty, non_empty, IsGiven}
use valqeron.Domain.Labels.{VenueStatus}
use valqeron.Domain.Names.{VenueName}

pub record VenuePatch : Type 0 where
  pub name : Option VenueName
  pub status : Option VenueStatus

pub record VenuePatchBuilder (state : PatchState) : Type 0 where
  pub inner : VenuePatch

abbrev pub empty_patch : VenuePatch
empty_patch = record { name = none; status = none }

unfoldable pub new : VenuePatchBuilder empty
new = record { inner = empty_patch }

unfoldable pub name :
    {state : PatchState} → VenueName → VenuePatchBuilder state → VenuePatchBuilder non_empty
name value builder = record { inner = record (builder.inner) { name = some value } }

unfoldable pub status :
    {state : PatchState} → VenueStatus → VenuePatchBuilder state → VenuePatchBuilder non_empty
status value builder = record { inner = record (builder.inner) { status = some value } }

unfoldable pub build : VenuePatchBuilder non_empty → VenuePatch
build builder = builder.inner

-- The builders that calls make, from `new` on.
pub data Made : (state : PatchState) → VenuePatchBuilder state → Type 0 where
  start : Made empty new
  set_name :
      {state : PatchState} {b : VenuePatchBuilder state} (value : VenueName)
      → Made state b
      → Made non_empty (name value b)
  set_status :
      {state : PatchState} {b : VenuePatchBuilder state} (value : VenueStatus)
      → Made state b
      → Made non_empty (status value b)

-- Some field is set.
abbrev pub SetsField : VenuePatch → Type 0
SetsField p = IsGiven p.name ⊎ IsGiven p.status

Made-SetsField :
    {state : PatchState} {b : VenuePatchBuilder state}
    → Made state b
    → state ≡ non_empty
    → SetsField b.inner
unfolding new name status
Made-SetsField start e = cc
Made-SetsField (set_name value m) e = inl tt
Made-SetsField (set_status value m) e = inr tt

-- A patch that can be built sets some field: the empty patch has no builder of the type that
-- `build` takes.
pub build-SetsField : (b : VenuePatchBuilder non_empty) → Made non_empty b → SetsField (build b)
unfolding build
build-SetsField b m = Made-SetsField m refl
