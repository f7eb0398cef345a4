-- ===== src/Domain/Security/Patch.antt =====
-- The patch of crates/core/src/domain/security.rs and its builder, whose type says whether a field was set.
use valqeron.Base.{Option, none, some, ◌≡◌, ◌⊎◌, inl, inr, refl}
use valqeron.Domain.Common.{PatchState, empty, non_empty, IsGiven}
use valqeron.Domain.Labels.{SecurityStatus}
use valqeron.Domain.Names.{SecurityName}
use valqeron.Domain.Ratio.{DepositaryReceiptRatio}
use valqeron.Identifiers.Cfi.{Cfi}
use valqeron.Identifiers.Isin.{Isin}

pub record SecurityPatch : Type 0 where
  pub name : Option SecurityName
  pub status : Option SecurityStatus
  pub isin : Option Isin
  pub cfi : Option Cfi
  pub dr_ratio : Option DepositaryReceiptRatio

pub record SecurityPatchBuilder (state : PatchState) : Type 0 where
  pub inner : SecurityPatch

abbrev pub empty_patch : SecurityPatch
empty_patch = record { name = none; status = none; isin = none; cfi = none; dr_ratio = none }

unfoldable pub new : SecurityPatchBuilder empty
new = record { inner = empty_patch }

unfoldable pub name :
    {state : PatchState}
    → SecurityName
    → SecurityPatchBuilder state
    → SecurityPatchBuilder non_empty
name value builder = record { inner = record (builder.inner) { name = some value } }

unfoldable pub status :
    {state : PatchState}
    → SecurityStatus
    → SecurityPatchBuilder state
    → SecurityPatchBuilder non_empty
status value builder = record { inner = record (builder.inner) { status = some value } }

unfoldable pub isin :
    {state : PatchState} → Isin → SecurityPatchBuilder state → SecurityPatchBuilder non_empty
isin value builder = record { inner = record (builder.inner) { isin = some value } }

unfoldable pub cfi :
    {state : PatchState} → Cfi → SecurityPatchBuilder state → SecurityPatchBuilder non_empty
cfi value builder = record { inner = record (builder.inner) { cfi = some value } }

unfoldable pub dr_ratio :
    {state : PatchState}
    → DepositaryReceiptRatio
    → SecurityPatchBuilder state
    → SecurityPatchBuilder non_empty
dr_ratio value builder = record { inner = record (builder.inner) { dr_ratio = some value } }

unfoldable pub build : SecurityPatchBuilder non_empty → SecurityPatch
build builder = builder.inner

-- The builders that calls make, from `new` on.
pub data Made : (state : PatchState) → SecurityPatchBuilder state → Type 0 where
  start : Made empty new
  set_name :
      {state : PatchState} {b : SecurityPatchBuilder state} (value : SecurityName)
      → Made state b
      → Made non_empty (name value b)
  set_status :
      {state : PatchState} {b : SecurityPatchBuilder state} (value : SecurityStatus)
      → Made state b
      → Made non_empty (status value b)
  set_isin :
      {state : PatchState} {b : SecurityPatchBuilder state} (value : Isin)
      → Made state b
      → Made non_empty (isin value b)
  set_cfi :
      {state : PatchState} {b : SecurityPatchBuilder state} (value : Cfi)
      → Made state b
      → Made non_empty (cfi value b)
  set_dr_ratio :
      {state : PatchState} {b : SecurityPatchBuilder state} (value : DepositaryReceiptRatio)
      → Made state b
      → Made non_empty (dr_ratio value b)

-- Some field is set.
abbrev pub SetsField : SecurityPatch → Type 0
SetsField p =
    IsGiven p.name ⊎ IsGiven p.status ⊎ IsGiven p.isin ⊎ IsGiven p.cfi ⊎ IsGiven p.dr_ratio

Made-SetsField :
    {state : PatchState} {b : SecurityPatchBuilder state}
    → Made state b
    → state ≡ non_empty
    → SetsField b.inner
unfolding new name status isin cfi dr_ratio
Made-SetsField start e = cc
Made-SetsField (set_name value m) e = inl tt
Made-SetsField (set_status value m) e = inr (inl tt)
Made-SetsField (set_isin value m) e = inr (inr (inl tt))
Made-SetsField (set_cfi value m) e = inr (inr (inr (inl tt)))
Made-SetsField (set_dr_ratio value m) e = inr (inr (inr (inr tt)))

-- A patch that can be built sets some field: the empty patch has no builder of the type that
-- `build` takes.
pub build-SetsField : (b : SecurityPatchBuilder non_empty) → Made non_empty b → SetsField (build b)
unfolding build
build-SetsField b m = Made-SetsField m refl
