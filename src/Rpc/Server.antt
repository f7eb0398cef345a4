-- ===== src/Rpc/Server.antt =====
-- The conversions of crates/engine/src/grpc/issuer.rs. The message of a status stands for what it is
-- printed from.
use valqeron.Base.{ℕ, ◌==◌, ltb, Option, none, some, Result, ok, map_err, ◌>>=◌, if◌then◌else◌}
use valqeron.Domain.Common.{
  Versioned, WriteOutcome, applied, version_mismatch, missing, PatchState, empty, non_empty,
}
use valqeron.Domain.Ids.{IssuerId}
use valqeron.Domain.Issuer.Build as Build
use valqeron.Domain.Issuer.Build.{IssuerBuilderError}
use valqeron.Domain.Issuer.Builder as Builder
use valqeron.Domain.Issuer.Builder.{IssuerBuilder}
use valqeron.Domain.Issuer.Patch as Patch
use valqeron.Domain.Issuer.Patch.{IssuerPatch, IssuerPatchBuilder}
use valqeron.Domain.Issuer.Types.{Issuer}
use valqeron.Domain.Labels.{IssuerStatus}
use valqeron.Domain.Labels.IssuerStatuses as Statuses
use valqeron.Domain.Labels.IssuerStatuses.{IssuerStatusError}
use valqeron.Domain.Names.{NameError, issuer_name}
use valqeron.Identifiers.Cnpj as Cnpjs
use valqeron.Identifiers.Cnpj.{Cnpj, CnpjError}
use valqeron.Identifiers.CountryCode as Countries
use valqeron.Identifiers.CountryCode.{CountryCode, CountryCodeError}
use valqeron.Identifiers.Lei as Leis
use valqeron.Identifiers.Lei.{Lei, LeiError}
use valqeron.Rpc.Messages.{
  Wire, IssuerProto, RegisterIssuerRequestProto, PatchIssuerRequestProto, Outcome,
  WriteOutcomeProto,
}
use valqeron.Sqlite.Columns.{map_option, ok_or}
use valqeron.Text.{Text}

pub data MappingError : Type 0 where
  issuer_name_error : NameError → MappingError
  issuer_status_error : IssuerStatusError → MappingError
  cnpj_error : CnpjError → MappingError
  lei_error : LeiError → MappingError
  country_code_error : CountryCodeError → MappingError
  issuer_builder_error : IssuerBuilderError → MappingError

-- What `Status::invalid_argument` is given.
pub data InvalidArgument : Type 0 where
  mapping : MappingError → InvalidArgument
  invalid_issuer_id : Text → InvalidArgument
  no_field : InvalidArgument

-- `if let Some(raw) = raw { builder = builder.set(make(raw)?); }`
unfoldable pub set_given :
    {A B E : Type 0} → Option Text → (Text → Result A E) → (A → B → B) → B → Result B E
set_given none make set builder = ok builder
set_given (some raw) make set builder = make raw >>= λ value. ok (set value builder)

-- `set_patch_field!`
unfoldable pub set_patch_field :
    ((state : PatchState) → IssuerPatchBuilder state → IssuerPatchBuilder non_empty)
    → Option (IssuerPatchBuilder non_empty)
    → Option (IssuerPatchBuilder non_empty)
set_patch_field method (some builder) = some (method non_empty builder)
set_patch_field method none = some (method empty Patch.new)

unfoldable pub default_list_limit : ℕ
default_list_limit = 50

unfoldable pub max_list_limit : ℕ
max_list_limit = 1000

-- The limit of `list`.
unfoldable pub list_limit : ℕ → ℕ
list_limit limit =
    if limit == 0
    then default_list_limit
    else (if ltb max_list_limit limit then max_list_limit else limit)

unfoldable pub write_outcome_to_proto : WriteOutcome → WriteOutcomeProto
write_outcome_to_proto applied = record { outcome = some Outcome.applied }
write_outcome_to_proto (version_mismatch expected actual) = record {
  outcome = some (Outcome.version_mismatch expected actual);
}
write_outcome_to_proto missing = record { outcome = some Outcome.missing }

abbrev pub make_name : Text → Result Text MappingError
make_name raw = map_err issuer_name_error (issuer_name raw)

abbrev pub make_cnpj : Text → Result Cnpj MappingError
make_cnpj raw = map_err cnpj_error (Cnpjs.parse raw)

abbrev pub make_lei : Text → Result Lei MappingError
make_lei raw = map_err lei_error (Leis.parse raw)

abbrev pub make_country_code : Text → Result CountryCode MappingError
make_country_code raw = map_err country_code_error (Countries.parse raw)

module _ {Time : Type 0} (wire : Wire Time) where
  abbrev pub make_status : Text → Result IssuerStatus MappingError
  make_status raw = map_err issuer_status_error (Statuses.from_str wire.to_uppercase raw)

  unfoldable pub build_issuer_from_proto :
      IssuerId → Time → RegisterIssuerRequestProto → Result (Issuer Time) MappingError
  build_issuer_from_proto fresh now req = do
    b₁ ←
        set_given req.name make_name Builder.name
          (Builder.created_at (wire.in_millis now) Builder.new)
    b₂ ← set_given req.status make_status Builder.status b₁
    b₃ ← set_given req.cnpj make_cnpj Builder.cnpj b₂
    b₄ ← set_given req.lei make_lei Builder.lei b₃
    b₅ ← set_given req.country_code make_country_code Builder.country_code b₄
    map_err issuer_builder_error (Build.build fresh now b₅)

  unfoldable pub convert_versioned_issuer_to_proto : Versioned (Issuer Time) → IssuerProto
  convert_versioned_issuer_to_proto versioned =
      let issuer = versioned.content in
      record {
        id = wire.uuid_text issuer.id;
        status = Statuses.text issuer.status;
        created_at = wire.to_rfc3339 issuer.created_at;
        version = versioned.version;
        name = map_option (λ n. n) issuer.name;
        cnpj = map_option Cnpjs.as_str issuer.cnpj;
        lei = map_option Leis.as_str issuer.lei;
        country_code = map_option Countries.as_str issuer.country_code;
      }

  unfoldable pub parse_issuer_id_to_domain : Text → Result IssuerId InvalidArgument
  parse_issuer_id_to_domain raw = ok_or (invalid_issuer_id raw) (wire.parse_uuid raw)

  unfoldable pub patch_request_to_domain :
      PatchIssuerRequestProto → Result (IssuerId × ℕ × IssuerPatch) InvalidArgument
  patch_request_to_domain req = do
    id ← parse_issuer_id_to_domain req.id
    builder ← map_err mapping (do
      b₁ ← set_given req.name make_name (λ v. set_patch_field (λ state. Patch.name v)) none
      b₂ ← set_given req.status make_status (λ v. set_patch_field (λ state. Patch.status v)) b₁
      b₃ ← set_given req.cnpj make_cnpj (λ v. set_patch_field (λ state. Patch.cnpj v)) b₂
      b₄ ← set_given req.lei make_lei (λ v. set_patch_field (λ state. Patch.lei v)) b₃
      set_given req.country_code make_country_code
          (λ v. set_patch_field (λ state. Patch.country_code v)) b₄)
    set ← ok_or no_field builder
    ok (id, req.expected_version, Patch.build set)
