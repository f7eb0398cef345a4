-- ===== src/Domain/Security/Service.antt =====
-- The repository trait and the service of crates/core/src/domain/security.rs. A query leaves the
-- store as it is. The two repositories stand on one store.
use valqeron.Base.{ℕ, Bool, not, Option, none, some, List, Result}
use valqeron.Domain.Common.{Versioned, WriteOutcome}
use valqeron.Domain.Ids.{IssuerId, SecurityId}
use valqeron.Domain.Issuer.Service.{IssuerRepository}
use valqeron.Domain.Security.Patch.{SecurityPatch}
use valqeron.Domain.Security.Types.{Security}
use valqeron.Domain.Steps.{Step, ◌>>◌, done, command, check, reject_found}
use valqeron.Identifiers.Isin.{Isin}

pub record SecurityRepository (S Fault Time : Type 0) : Type 0 where
  pub find_by_id : SecurityId → S → Result (Option (Versioned (Security Time))) Fault
  pub find_by_isin : Isin → S → Result (Option (Versioned (Security Time))) Fault
  pub list_all : S → Result (List (Versioned (Security Time))) Fault
  pub list_by_issuer : IssuerId → S → Result (List (Versioned (Security Time))) Fault
  pub list_paged : Option SecurityId → ℕ → S → Result (List (Versioned (Security Time))) Fault
  pub exists : SecurityId → S → Result Bool Fault
  pub exists_by_isin : Isin → S → Result Bool Fault
  pub insert : Security Time → S → Result (Unit {0}) Fault × S
  pub apply_patch : SecurityId → ℕ → SecurityPatch → S → Result WriteOutcome Fault × S
  pub update : Security Time → ℕ → S → Result WriteOutcome Fault × S
  pub delete : SecurityId → ℕ → S → Result WriteOutcome Fault × S

pub data RegisterSecurityError (Fault : Type 0) : Type 0 where
  unknown_issuer duplicate_isin unknown_underlying_security : RegisterSecurityError Fault
  storage : Fault → RegisterSecurityError Fault

module _ {S Fault Time : Type 0} (securities : SecurityRepository S Fault Time)
    (issuers : IssuerRepository S Fault Time) where
  -- The check of the underlying security, where there is one.
  unfoldable pub check_underlying :
      Option SecurityId → Step S (RegisterSecurityError Fault) (Unit {0})
  check_underlying (some underlying) =
      check storage (securities.exists underlying) not unknown_underlying_security
  check_underlying none = done

  unfoldable pub register_security : Security Time → Step S (RegisterSecurityError Fault) (Unit {0})
  register_security security = do
    check storage (issuers.exists security.issuer_id) not unknown_issuer
    reject_found storage securities.exists_by_isin security.isin duplicate_isin
    check_underlying security.underlying_security_id
    command storage (securities.insert security)
