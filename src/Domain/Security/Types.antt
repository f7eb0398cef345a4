-- ===== src/Domain/Security/Types.antt =====
-- The entity of crates/core/src/domain/security.rs, and what storage makes it of.
use valqeron.Base.{Option}
use valqeron.Domain.Ids.{IssuerId, SecurityId}
use valqeron.Domain.Labels.{SecurityKind, SecurityStatus}
use valqeron.Domain.Names.{SecurityName}
use valqeron.Domain.Ratio.{DepositaryReceiptRatio}
use valqeron.Identifiers.Cfi.{Cfi}
use valqeron.Identifiers.Isin.{Isin}

pub record Security (Time : Type 0) : Type 0 where
  pub id : SecurityId
  pub issuer_id : IssuerId
  pub kind : SecurityKind
  pub status : SecurityStatus
  pub created_at : Time
  pub name : Option SecurityName
  pub isin : Option Isin
  pub cfi : Option Cfi
  pub underlying_security_id : Option SecurityId
  pub dr_ratio : Option DepositaryReceiptRatio

pub record SecuritySnapshot (Time : Type 0) : Type 0 where
  pub id : SecurityId
  pub issuer_id : IssuerId
  pub kind : SecurityKind
  pub status : SecurityStatus
  pub created_at : Time
  pub name : Option SecurityName
  pub isin : Option Isin
  pub cfi : Option Cfi
  pub underlying_security_id : Option SecurityId
  pub dr_ratio : Option DepositaryReceiptRatio

unfoldable pub reconstitute : {Time : Type 0} → SecuritySnapshot Time → Security Time
reconstitute snapshot = record {
  id = snapshot.id;
  issuer_id = snapshot.issuer_id;
  kind = snapshot.kind;
  status = snapshot.status;
  created_at = snapshot.created_at;
  name = snapshot.name;
  isin = snapshot.isin;
  cfi = snapshot.cfi;
  underlying_security_id = snapshot.underlying_security_id;
  dr_ratio = snapshot.dr_ratio;
}
