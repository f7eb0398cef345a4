-- ===== src/Domain/Issuer/Patch.antt =====
-- The patch of crates/core/src/domain/issuer.rs and its builder, whose type says whether a field was set.
use valqeron.Base.{Option, none, some, ◌⊎◌}
use valqeron.Domain.Common.{PatchState, empty, non_empty, IsGiven}
use valqeron.Domain.Labels.{IssuerStatus}
use valqeron.Domain.Names.{IssuerName}
use valqeron.Identifiers.Cnpj.{Cnpj}
use valqeron.Identifiers.CountryCode.{CountryCode}
use valqeron.Identifiers.Lei.{Lei}

pub record IssuerPatch : Type 0 where
  pub name : Option IssuerName
  pub status : Option IssuerStatus
  pub cnpj : Option Cnpj
  pub lei : Option Lei
  pub country_code : Option CountryCode

pub record IssuerPatchBuilder (state : PatchState) : Type 0 where
  pub inner : IssuerPatch

abbrev pub empty_patch : IssuerPatch
empty_patch = record { name = none; status = none; cnpj = none; lei = none; country_code = none }

unfoldable pub new : IssuerPatchBuilder empty
new = record { inner = empty_patch }

unfoldable pub name :
    {state : PatchState} → IssuerName → IssuerPatchBuilder state → IssuerPatchBuilder non_empty
name value builder = record { inner = record (builder.inner) { name = some value } }

unfoldable pub status :
    {state : PatchState} → IssuerStatus → IssuerPatchBuilder state → IssuerPatchBuilder non_empty
status value builder = record { inner = record (builder.inner) { status = some value } }

unfoldable pub cnpj :
    {state : PatchState} → Cnpj → IssuerPatchBuilder state → IssuerPatchBuilder non_empty
cnpj value builder = record { inner = record (builder.inner) { cnpj = some value } }

unfoldable pub lei :
    {state : PatchState} → Lei → IssuerPatchBuilder state → IssuerPatchBuilder non_empty
lei value builder = record { inner = record (builder.inner) { lei = some value } }

unfoldable pub country_code :
    {state : PatchState} → CountryCode → IssuerPatchBuilder state → IssuerPatchBuilder non_empty
country_code value builder = record { inner = record (builder.inner) { country_code = some value } }

unfoldable pub build : IssuerPatchBuilder non_empty → IssuerPatch
build builder = builder.inner

-- Some field is set.
abbrev pub SetsField : IssuerPatch → Type 0
SetsField p =
    IsGiven p.name ⊎ IsGiven p.status ⊎ IsGiven p.cnpj ⊎ IsGiven p.lei ⊎ IsGiven p.country_code
