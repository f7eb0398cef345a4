-- ===== src/Domain/Issuer/Service.antt =====
-- The repository trait and the services of crates/core/src/domain/issuer.rs. A query leaves the store
-- as it is.
use valqeron.Base.{ℕ, Bool, Option, List, Result}
use valqeron.Domain.Common.{Versioned, WriteOutcome, LoadMode}
use valqeron.Domain.Ids.{IssuerId}
use valqeron.Domain.Issuer.Patch.{IssuerPatch}
use valqeron.Domain.Issuer.Types.{Issuer}
use valqeron.Domain.Steps.{Step, ◌>>◌, query, command, reject_found}
use valqeron.Identifiers.Cnpj.{Cnpj}
use valqeron.Identifiers.Lei.{Lei}

pub record IssuerRepository (S Fault Time : Type 0) : Type 0 where
  pub find_by_id : IssuerId → LoadMode → S → Result (Option (Versioned (Issuer Time))) Fault
  pub list_all : LoadMode → S → Result (List (Versioned (Issuer Time))) Fault
  pub list_paged :
      Option IssuerId → ℕ → LoadMode → S → Result (List (Versioned (Issuer Time))) Fault
  pub exists : IssuerId → S → Result Bool Fault
  pub exists_by_cnpj : Cnpj → S → Result Bool Fault
  pub exists_by_lei : Lei → S → Result Bool Fault
  pub insert : Issuer Time → S → Result (Unit {0}) Fault × S
  pub apply_patch : IssuerId → ℕ → IssuerPatch → S → Result WriteOutcome Fault × S
  pub update : Issuer Time → ℕ → S → Result WriteOutcome Fault × S
  pub delete : IssuerId → ℕ → S → Result WriteOutcome Fault × S

pub data RegisterIssuerError (Fault : Type 0) : Type 0 where
  duplicate_cnpj duplicate_lei : RegisterIssuerError Fault
  storage : Fault → RegisterIssuerError Fault

pub data GetIssuerError (Fault : Type 0) : Type 0 where
  storage : Fault → GetIssuerError Fault

pub data ListIssuersError (Fault : Type 0) : Type 0 where
  storage : Fault → ListIssuersError Fault

pub data PatchIssuerError (Fault : Type 0) : Type 0 where
  duplicate_cnpj duplicate_lei : PatchIssuerError Fault
  storage : Fault → PatchIssuerError Fault

pub data DeleteIssuerError (Fault : Type 0) : Type 0 where
  storage : Fault → DeleteIssuerError Fault

module _ {S Fault Time : Type 0} (repo : IssuerRepository S Fault Time) where
  unfoldable pub register_issuer : Issuer Time → Step S (RegisterIssuerError Fault) (Unit {0})
  register_issuer issuer = do
    reject_found RegisterIssuerError.storage repo.exists_by_cnpj issuer.cnpj
        RegisterIssuerError.duplicate_cnpj
    reject_found RegisterIssuerError.storage repo.exists_by_lei issuer.lei
        RegisterIssuerError.duplicate_lei
    command RegisterIssuerError.storage (repo.insert issuer)

  unfoldable pub get_issuer :
      IssuerId → LoadMode → Step S (GetIssuerError Fault) (Option (Versioned (Issuer Time)))
  get_issuer id mode = query GetIssuerError.storage (repo.find_by_id id mode)

  unfoldable pub list_issuers :
      Option IssuerId
      → ℕ
      → LoadMode
      → Step S (ListIssuersError Fault) (List (Versioned (Issuer Time)))
  list_issuers after limit mode = query ListIssuersError.storage (repo.list_paged after limit mode)

  unfoldable pub patch_issuer :
      IssuerId → ℕ → IssuerPatch → Step S (PatchIssuerError Fault) WriteOutcome
  patch_issuer id expected_version patch = do
    reject_found PatchIssuerError.storage repo.exists_by_cnpj patch.cnpj
        PatchIssuerError.duplicate_cnpj
    reject_found PatchIssuerError.storage repo.exists_by_lei patch.lei
        PatchIssuerError.duplicate_lei
    command PatchIssuerError.storage (repo.apply_patch id expected_version patch)

  unfoldable pub delete_issuer : IssuerId → ℕ → Step S (DeleteIssuerError Fault) WriteOutcome
  delete_issuer id expected_version =
      command DeleteIssuerError.storage (repo.delete id expected_version)
