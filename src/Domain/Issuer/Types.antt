-- ===== src/Domain/Issuer/Types.antt =====
-- The entity of crates/core/src/domain/issuer.rs, and what storage makes it of.
use valqeron.Base.{Option, List}
use valqeron.Domain.Common.{Loading, as_loaded}
use valqeron.Domain.Security.Types.{Security}
use valqeron.Domain.Ids.{IssuerId}
use valqeron.Domain.Labels.{IssuerStatus}
use valqeron.Domain.Names.{IssuerName}
use valqeron.Identifiers.Cnpj.{Cnpj}
use valqeron.Identifiers.CountryCode.{CountryCode}
use valqeron.Identifiers.Lei.{Lei}

pub record Issuer (Time : Type 0) : Type 0 where
  pub id : IssuerId
  pub status : IssuerStatus
  pub created_at : Time
  pub name : Option IssuerName
  pub cnpj : Option Cnpj
  pub lei : Option Lei
  pub country_code : Option CountryCode
  pub securities : Loading (List (Security Time))

pub record IssuerSnapshot (Time : Type 0) : Type 0 where
  pub id : IssuerId
  pub status : IssuerStatus
  pub created_at : Time
  pub name : Option IssuerName
  pub cnpj : Option Cnpj
  pub lei : Option Lei
  pub country_code : Option CountryCode
  pub securities : Loading (List (Security Time))

unfoldable pub reconstitute : {Time : Type 0} → IssuerSnapshot Time → Issuer Time
reconstitute snapshot = record {
  id = snapshot.id;
  status = snapshot.status;
  created_at = snapshot.created_at;
  name = snapshot.name;
  cnpj = snapshot.cnpj;
  lei = snapshot.lei;
  country_code = snapshot.country_code;
  securities = snapshot.securities;
}

-- `Issuer::securities`, where they were loaded.
abbrev pub securities : {Time : Type 0} → Issuer Time → Option (List (Security Time))
securities issuer = as_loaded issuer.securities
