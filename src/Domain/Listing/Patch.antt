-- ===== src/Domain/Listing/Patch.antt =====
-- The patch of crates/core/src/domain/listing.rs and its builder, whose type says whether a field was set.
use valqeron.Base.{Option, none, some, ◌≡◌, ◌⊎◌, inl, inr, refl}
use valqeron.Domain.Common.{PatchState, empty, non_empty, IsGiven}
use valqeron.Domain.Labels.{ListingRole, ListingStatus}
use valqeron.Domain.Names.{MarketSegment}
use valqeron.Domain.Symbols.{CurrencyCode, TickerSymbol}

pub record ListingPatch (Date : Type 0) : Type 0 where
  pub symbol : Option TickerSymbol
  pub role : Option ListingRole
  pub status : Option ListingStatus
  pub currency : Option CurrencyCode
  pub segment : Option MarketSegment
  pub listed_on : Option Date
  pub delisted_on : Option Date

pub record ListingPatchBuilder (Date : Type 0) (state : PatchState) : Type 0 where
  pub inner : ListingPatch Date

module _ {Date : Type 0} where
  abbrev pub empty_patch : ListingPatch Date
  empty_patch = record {
    symbol = none;
    role = none;
    status = none;
    currency = none;
    segment = none;
    listed_on = none;
    delisted_on = none;
  }

  unfoldable pub new : ListingPatchBuilder Date empty
  new = record { inner = empty_patch }

  unfoldable pub symbol :
      {state : PatchState}
      → TickerSymbol
      → ListingPatchBuilder Date state
      → ListingPatchBuilder Date non_empty
  symbol value builder = record { inner = record (builder.inner) { symbol = some value } }

  unfoldable pub role :
      {state : PatchState}
      → ListingRole
      → ListingPatchBuilder Date state
      → ListingPatchBuilder Date non_empty
  role value builder = record { inner = record (builder.inner) { role = some value } }

  unfoldable pub status :
      {state : PatchState}
      → ListingStatus
      → ListingPatchBuilder Date state
      → ListingPatchBuilder Date non_empty
  status value builder = record { inner = record (builder.inner) { status = some value } }

  unfoldable pub currency :
      {state : PatchState}
      → CurrencyCode
      → ListingPatchBuilder Date state
      → ListingPatchBuilder Date non_empty
  currency value builder = record { inner = record (builder.inner) { currency = some value } }

  unfoldable pub segment :
      {state : PatchState}
      → MarketSegment
      → ListingPatchBuilder Date state
      → ListingPatchBuilder Date non_empty
  segment value builder = record { inner = record (builder.inner) { segment = some value } }

  unfoldable pub listed_on :
      {state : PatchState}
      → Date
      → ListingPatchBuilder Date state
      → ListingPatchBuilder Date non_empty
  listed_on value builder = record { inner = record (builder.inner) { listed_on = some value } }

  unfoldable pub delisted_on :
      {state : PatchState}
      → Date
      → ListingPatchBuilder Date state
      → ListingPatchBuilder Date non_empty
  delisted_on value builder = record { inner = record (builder.inner) { delisted_on = some value } }

  unfoldable pub build : ListingPatchBuilder Date non_empty → ListingPatch Date
  build builder = builder.inner

-- The builders that calls make, from `new` on.
pub data Made {Date : Type 0} : (state : PatchState) → ListingPatchBuilder Date state → Type 0 where
  start : Made empty new
  set_symbol :
      {state : PatchState} {b : ListingPatchBuilder Date state} (value : TickerSymbol)
      → Made state b
      → Made non_empty (symbol value b)
  set_role :
      {state : PatchState} {b : ListingPatchBuilder Date state} (value : ListingRole)
      → Made state b
      → Made non_empty (role value b)
  set_status :
      {state : PatchState} {b : ListingPatchBuilder Date state} (value : ListingStatus)
      → Made state b
      → Made non_empty (status value b)
  set_currency :
      {state : PatchState} {b : ListingPatchBuilder Date state} (value : CurrencyCode)
      → Made state b
      → Made non_empty (currency value b)
  set_segment :
      {state : PatchState} {b : ListingPatchBuilder Date state} (value : MarketSegment)
      → Made state b
      → Made non_empty (segment value b)
  set_listed_on :
      {state : PatchState} {b : ListingPatchBuilder Date state} (value : Date)
      → Made state b
      → Made non_empty (listed_on value b)
  set_delisted_on :
      {state : PatchState} {b : ListingPatchBuilder Date state} (value : Date)
      → Made state b
      → Made non_empty (delisted_on value b)

-- Some field is set.
abbrev pub SetsField : {Date : Type 0} → ListingPatch Date → Type 0
SetsField p =
    IsGiven p.symbol
    ⊎ IsGiven p.role
    ⊎ IsGiven p.status
    ⊎ IsGiven p.currency
    ⊎ IsGiven p.segment
    ⊎ IsGiven p.listed_on
    ⊎ IsGiven p.delisted_on

Made-SetsField :
    {Date : Type 0} {state : PatchState} {b : ListingPatchBuilder Date state}
    → Made state b
    → state ≡ non_empty
    → SetsField b.inner
unfolding new symbol role status currency segment listed_on delisted_on
Made-SetsField start e = cc
Made-SetsField (set_symbol value m) e = inl tt
Made-SetsField (set_role value m) e = inr (inl tt)
Made-SetsField (set_status value m) e = inr (inr (inl tt))
Made-SetsField (set_currency value m) e = inr (inr (inr (inl tt)))
Made-SetsField (set_segment value m) e = inr (inr (inr (inr (inl tt))))
Made-SetsField (set_listed_on value m) e = inr (inr (inr (inr (inr (inl tt)))))
Made-SetsField (set_delisted_on value m) e = inr (inr (inr (inr (inr (inr tt)))))

-- A patch that can be built sets some field: the empty patch has no builder of the type that
-- `build` takes.
pub build-SetsField :
    {Date : Type 0} (b : ListingPatchBuilder Date non_empty)
    → Made non_empty b
    → SetsField (build b)
unfolding build
build-SetsField b m = Made-SetsField m refl
