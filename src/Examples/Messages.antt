-- ===== src/Examples/Messages.antt =====
-- Messages about an issuer with a CNPJ, between the engine and its client.
use valqeron.Base.{
  ℕ, ◌*◌, ◌/◌, ◌≡◌, inl, inr, refl, false, [], ◌∷◌, List, map, Option, none, some, ok,
}
use valqeron.Domain.Common.{loaded}
use valqeron.Domain.Labels.{IssuerStatus}
use valqeron.Examples.Cnpjs.{company, company_parses}
use valqeron.Examples.Cnpjs as Cnpjs
use valqeron.Examples.Databases.{acme, lib-IsDocumented}
use valqeron.Examples.Writes.{acme-IsSound}
use valqeron.Rpc.Client.{
  PatchIssuerRequest, issuer_from_proto, issuer_to_register_request, patch_request,
}
use valqeron.Rpc.Issuers.{issuer_from_proto-convert_versioned_issuer_to_proto}
use valqeron.Rpc.Messages.{Wire, IsDocumented}
use valqeron.Rpc.Requests.{
  IsSoundPatch, build_issuer_from_proto-issuer_to_register_request,
  patch_request_to_domain-patch_request,
}
use valqeron.Rpc.Server.{
  build_issuer_from_proto, convert_versioned_issuer_to_proto, patch_request_to_domain,
}
use valqeron.Text.{to_ascii_uppercase}

abbrev first : List ℕ → Option ℕ
first [] = none
first (k ∷ ks) = some k

abbrev wire : Wire ℕ
wire = record {
  uuid_text = λ id. id ∷ [];
  parse_uuid = first;
  to_rfc3339 = λ time. time ∷ [];
  parse_from_rfc3339 = first;
  in_millis = λ n. n / 1000 * 1000;
  to_uppercase = λ t. map to_ascii_uppercase t;
}

wire-IsDocumented : IsDocumented wire
wire-IsDocumented = record {
  read_uuid = λ id. refl;
  read_time = λ time. refl;
  upper = lib-IsDocumented.upper;
}

issuer_from_proto-convert_versioned_issuer_to_proto_example :
    issuer_from_proto wire 9 0
      (convert_versioned_issuer_to_proto wire (record { content = acme; version = 3 }))
    ≡ ok (record { content = record acme { securities = loaded [] }; version = 3 })
issuer_from_proto-convert_versioned_issuer_to_proto_example =
    issuer_from_proto-convert_versioned_issuer_to_proto wire 9 0
      (record { content = acme; version = 3 }) wire-IsDocumented acme-IsSound (λ given. refl)

build_issuer_from_proto-issuer_to_register_request_example :
    build_issuer_from_proto wire 9 1234567 (issuer_to_register_request acme false)
    ≡ ok (record acme { id = 9; created_at = 1234000; securities = loaded [] })
build_issuer_from_proto-issuer_to_register_request_example =
    build_issuer_from_proto-issuer_to_register_request wire 9 1234567 acme false wire-IsDocumented
      acme-IsSound (λ given. refl)

abbrev request : PatchIssuerRequest
request = record {
  expected_version = 4;
  patch = record {
    name = none;
    status = some IssuerStatus.retired;
    cnpj = some company;
    lei = none;
    country_code = none;
  };
  dry_run = false;
}

request-IsSoundPatch : IsSoundPatch request.patch
request-IsSoundPatch = record {
  name = tt;
  cnpj = (Cnpjs.company_text, company_parses);
  lei = tt;
  country_code = tt;
}

patch_request_to_domain-patch_request_example :
    patch_request_to_domain wire (patch_request wire 2 request) ≡ ok (2, 4, request.patch)
patch_request_to_domain-patch_request_example =
    patch_request_to_domain-patch_request wire 2 request wire-IsDocumented request-IsSoundPatch
      (inr (inl tt))
