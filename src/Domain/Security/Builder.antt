-- ===== src/Domain/Security/Builder.antt =====
-- The builder of crates/core/src/domain/security.rs: its fields and setters. The type of points in time is a parameter.
use valqeron.Base.{Option, none, some}
use valqeron.Domain.Ids.{IssuerId, SecurityId}
use valqeron.Domain.Labels.{SecurityKind, SecurityStatus}
use valqeron.Domain.Names.{SecurityName}
use valqeron.Domain.Ratio.{DepositaryReceiptRatio}
use valqeron.Identifiers.Cfi.{Cfi}
use valqeron.Identifiers.Isin.{Isin}

pub record SecurityBuilder (Time : Type 0) : Type 0 where
  pub issuer_id : IssuerId
  pub kind : SecurityKind
  pub id : Option SecurityId
  pub status : Option SecurityStatus
  pub created_at : Option Time
  pub name : Option SecurityName
  pub isin : Option Isin
  pub cfi : Option Cfi
  pub underlying_security_id : Option SecurityId
  pub dr_ratio : Option DepositaryReceiptRatio

module _ {Time : Type 0} where
  abbrev pub new : IssuerId → SecurityKind → SecurityBuilder Time
  new issuer_id kind = record {
    issuer_id = issuer_id;
    kind = kind;
    id = none;
    status = none;
    created_at = none;
    name = none;
    isin = none;
    cfi = none;
    underlying_security_id = none;
    dr_ratio = none;
  }

  unfoldable pub id : SecurityId → SecurityBuilder Time → SecurityBuilder Time
  id value builder = record builder { id = some value }

  unfoldable pub status : SecurityStatus → SecurityBuilder Time → SecurityBuilder Time
  status value builder = record builder { status = some value }

  unfoldable pub created_at : Time → SecurityBuilder Time → SecurityBuilder Time
  created_at value builder = record builder { created_at = some value }

  unfoldable pub name : SecurityName → SecurityBuilder Time → SecurityBuilder Time
  name value builder = record builder { name = some value }

  unfoldable pub isin : Isin → SecurityBuilder Time → SecurityBuilder Time
  isin value builder = record builder { isin = some value }

  unfoldable pub cfi : Cfi → SecurityBuilder Time → SecurityBuilder Time
  cfi value builder = record builder { cfi = some value }

  unfoldable pub underlying_security_id : SecurityId → SecurityBuilder Time → SecurityBuilder Time
  underlying_security_id value builder = record builder { underlying_security_id = some value }

  unfoldable pub dr_ratio : DepositaryReceiptRatio → SecurityBuilder Time → SecurityBuilder Time
  dr_ratio value builder = record builder { dr_ratio = some value }
