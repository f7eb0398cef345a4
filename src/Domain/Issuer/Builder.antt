-- ===== src/Domain/Issuer/Builder.antt =====
-- The builder of crates/core/src/domain/issuer.rs: its fields and setters. The type of points in time is a parameter.
use valqeron.Base.{Option, none, some}
use valqeron.Domain.Ids.{IssuerId}
use valqeron.Domain.Labels.{IssuerStatus}
use valqeron.Domain.Names.{IssuerName}
use valqeron.Identifiers.Cnpj.{Cnpj}
use valqeron.Identifiers.CountryCode.{CountryCode}
use valqeron.Identifiers.Lei.{Lei}

pub record IssuerBuilder (Time : Type 0) : Type 0 where
  pub id : Option IssuerId
  pub status : Option IssuerStatus
  pub created_at : Option Time
  pub name : Option IssuerName
  pub cnpj : Option Cnpj
  pub lei : Option Lei
  pub country_code : Option CountryCode

module _ {Time : Type 0} where
  abbrev pub new : IssuerBuilder Time
  new = record {
    id = none;
    status = none;
    created_at = none;
    name = none;
    cnpj = none;
    lei = none;
    country_code = none;
  }

  unfoldable pub id : IssuerId → IssuerBuilder Time → IssuerBuilder Time
  id value builder = record builder { id = some value }

  unfoldable pub status : IssuerStatus → IssuerBuilder Time → IssuerBuilder Time
  status value builder = record builder { status = some value }

  unfoldable pub created_at : Time → IssuerBuilder Time → IssuerBuilder Time
  created_at value builder = record builder { created_at = some value }

  unfoldable pub name : IssuerName → IssuerBuilder Time → IssuerBuilder Time
  name value builder = record builder { name = some value }

  unfoldable pub cnpj : Cnpj → IssuerBuilder Time → IssuerBuilder Time
  cnpj value builder = record builder { cnpj = some value }

  unfoldable pub lei : Lei → IssuerBuilder Time → IssuerBuilder Time
  lei value builder = record builder { lei = some value }

  unfoldable pub country_code : CountryCode → IssuerBuilder Time → IssuerBuilder Time
  country_code value builder = record builder { country_code = some value }
