-- ===== src/Rpc/Client.antt =====
-- The conversions of crates/engine-client/src/issuer.rs.
use valqeron.Base.{ℕ, Bool, none, some, Result, ok, err, map_err, ◌>>=◌}
use valqeron.Domain.Common.{Versioned, WriteOutcome, applied, version_mismatch, missing}
use valqeron.Domain.Ids.{IssuerId}
use valqeron.Domain.Issuer.Build as Build
use valqeron.Domain.Issuer.Build.{IssuerBuilderError}
use valqeron.Domain.Issuer.Builder as Builder
use valqeron.Domain.Issuer.Patch.{IssuerPatch}
use valqeron.Domain.Issuer.Types.{Issuer}
use valqeron.Domain.Labels.IssuerStatuses as Statuses
use valqeron.Domain.Labels.IssuerStatuses.{IssuerStatusError}
use valqeron.Domain.Names.{NameError, issuer_name}
use valqeron.Identifiers.Cnpj as Cnpjs
use valqeron.Identifiers.Cnpj.{CnpjError}
use valqeron.Identifiers.CountryCode as Countries
use valqeron.Identifiers.CountryCode.{CountryCodeError}
use valqeron.Identifiers.Lei as Leis
use valqeron.Identifiers.Lei.{LeiError}
use valqeron.Rpc.Messages.{
  Wire, IssuerProto, RegisterIssuerRequestProto, PatchIssuerRequestProto, Outcome,
  WriteOutcomeProto,
}
use valqeron.Rpc.Server.{set_given}
use valqeron.Sqlite.Columns.{map_option, ok_or}
use valqeron.Text.{Text, codes}

pub data IssuerMappingError : Type 0 where
  invalid_id invalid_timestamp : Text → IssuerMappingError
  name_error : NameError → IssuerMappingError
  status_error : IssuerStatusError → IssuerMappingError
  cnpj_error : CnpjError → IssuerMappingError
  lei_error : LeiError → IssuerMappingError
  country_code_error : CountryCodeError → IssuerMappingError
  builder_error : IssuerBuilderError → IssuerMappingError
  missing_field : Text → IssuerMappingError

-- `PatchIssuerRequest`
pub record PatchIssuerRequest : Type 0 where
  pub expected_version : ℕ
  pub patch : IssuerPatch
  pub dry_run : Bool

unfoldable pub write_outcome_from_proto : WriteOutcomeProto → Result WriteOutcome IssuerMappingError
write_outcome_from_proto msg = elim msg.outcome [
  | some o ↦ elim o [
    | Outcome.applied ↦ ok applied
    | Outcome.version_mismatch expected actual ↦ ok (version_mismatch expected actual)
    | Outcome.missing ↦ ok missing
  ]
  | none ↦ err (missing_field (codes "outcome"))
]

unfoldable pub issuer_to_register_request :
    {Time : Type 0} → Issuer Time → Bool → RegisterIssuerRequestProto
issuer_to_register_request issuer dry_run = record {
  name = map_option (λ n. n) issuer.name;
  status = some (Statuses.text issuer.status);
  cnpj = map_option Cnpjs.as_str issuer.cnpj;
  lei = map_option Leis.as_str issuer.lei;
  country_code = map_option Countries.as_str issuer.country_code;
  dry_run = dry_run;
}

module _ {Time : Type 0} (wire : Wire Time) where
  -- The message of an error stands for the text that was read.
  unfoldable pub parse_issuer_id : Text → Result IssuerId IssuerMappingError
  parse_issuer_id raw = ok_or (invalid_id raw) (wire.parse_uuid raw)

  unfoldable pub parse_timestamp : Text → Result Time IssuerMappingError
  parse_timestamp raw = ok_or (invalid_timestamp raw) (wire.parse_from_rfc3339 raw)

  -- A builder with an id and a time takes none of the fresh ones.
  unfoldable pub issuer_from_proto :
      IssuerId → Time → IssuerProto → Result (Versioned (Issuer Time)) IssuerMappingError
  issuer_from_proto fresh now msg = do
    id ← parse_issuer_id msg.id
    status ← map_err status_error (Statuses.from_str wire.to_uppercase msg.status)
    created_at ← parse_timestamp msg.created_at
    b₁ ←
        set_given msg.name (λ raw. map_err name_error (issuer_name raw)) Builder.name
          (Builder.created_at created_at (Builder.status status (Builder.id id Builder.new)))
    b₂ ← set_given msg.cnpj (λ raw. map_err cnpj_error (Cnpjs.parse raw)) Builder.cnpj b₁
    b₃ ← set_given msg.lei (λ raw. map_err lei_error (Leis.parse raw)) Builder.lei b₂
    b₄ ←
        set_given msg.country_code (λ raw. map_err country_code_error (Countries.parse raw))
          Builder.country_code b₃
    issuer ← map_err builder_error (Build.build fresh now b₄)
    ok (record { content = issuer; version = msg.version })

  -- The request of `IssuerService::patch`.
  unfoldable pub patch_request : IssuerId → PatchIssuerRequest → PatchIssuerRequestProto
  patch_request id request = record {
    id = wire.uuid_text id;
    expected_version = request.expected_version;
    name = map_option (λ n. n) request.patch.name;
    status = map_option Statuses.text request.patch.status;
    cnpj = map_option Cnpjs.as_str request.patch.cnpj;
    lei = map_option Leis.as_str request.patch.lei;
    country_code = map_option Countries.as_str request.patch.country_code;
    dry_run = request.dry_run;
  }
