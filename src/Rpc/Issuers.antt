-- ===== src/Rpc/Issuers.antt =====
-- An issuer that the engine sends to its client.
use valqeron.Base.{ℕ, ◌≤◌, arith, ◌≡◌, refl, [], Option, none, some, Result, ok, map_err}
use valqeron.Domain.Common.{
  Versioned, IsGiven, loaded, WriteOutcome, applied, version_mismatch, missing,
}
use valqeron.Domain.Ids.{IssuerId}
use valqeron.Domain.Issuer.Build as Build
use valqeron.Domain.Issuer.Build.{MayHaveCnpj, brazil, parse-brazil, check_country}
use valqeron.Domain.Issuer.Builder as Builder
use valqeron.Domain.Issuer.Builder.{IssuerBuilder}
use valqeron.Domain.Issuer.Types.{Issuer}
use valqeron.Domain.Labels.{IssuerStatus}
use valqeron.Domain.Labels.IssuerStatuses as Statuses
use valqeron.Domain.Labels.IssuerStatuses.{issuer_status-from_str_iff}
use valqeron.Domain.Names.{issuer_name, checked_name_idem}
use valqeron.Identifiers.Cnpj as Cnpjs
use valqeron.Identifiers.Cnpj.{Cnpj}
use valqeron.Identifiers.Cnpj.RoundTrip.{cnpj-parse-as_str}
use valqeron.Identifiers.CountryCode as Countries
use valqeron.Identifiers.CountryCode.{CountryCode}
use valqeron.Identifiers.CountryCode.Format.{parse_of_IsCountryCode, parse-IsCountryCode}
use valqeron.Identifiers.Lei as Leis
use valqeron.Identifiers.Lei.{Lei}
use valqeron.Identifiers.Lei.Format.{lei-parse-as_str}
use valqeron.Rpc.Client.{
  issuer_from_proto, parse_issuer_id, parse_timestamp, name_error, cnpj_error, lei_error,
  country_code_error, write_outcome_from_proto,
}
use valqeron.Rpc.Messages.{Wire, IsDocumented}
use valqeron.Rpc.Server.{
  set_given, convert_versioned_issuer_to_proto, write_outcome_to_proto, list_limit,
  default_list_limit, max_list_limit,
}
use valqeron.Sqlite.Columns.{IsMade, map_option}
use valqeron.Sqlite.Issuers.RoundTrip.{IsSound}
use valqeron.Text.{Text, codes, text_eq}

-- A field that was made, written out and read again by its constructor, is set in the builder.
pub set_given_lem :
    {A B E F : Type 0} (make : Text → Result A E) (fault : E → F) (write : A → Text)
    (set : A → B → B) (builder : Option A → B) (o : Option A)
    → ((t : Text) (a : A) → make t ≡ ok a → make (write a) ≡ ok a)
    → IsMade make o
    → ((a : A) → set a (builder none) ≡ builder (some a))
    → set_given (map_option write o) (λ raw. map_err fault (make raw)) set (builder none)
      ≡ ok (builder o)
unfolding set_given
set_given_lem make fault write set builder none again made sets = refl
set_given_lem make fault write set builder (some a) again (t, e) sets =
    rw (again t a e, sets a) refl

-- The country of an issuer that is built: a CNPJ makes it Brazil.
abbrev pub shown : Option Cnpj → Option CountryCode → Option CountryCode
shown none code = code
shown (some cnpj) none = some brazil
shown (some cnpj) (some code) = some code

pub check_country-shown :
    (cnpj : Option Cnpj) (code : Option CountryCode)
    → (IsGiven cnpj → MayHaveCnpj code)
    → check_country cnpj code ≡ ok (shown cnpj code)
unfolding check_country
check_country-shown none code h = refl
check_country-shown (some cnpj) none h = rw parse-brazil refl
check_country-shown (some cnpj) (some code) h = rw (h tt) (unfold text_eq in refl)

-- What became of a write is read as it was sent.
write_outcome_from_proto-write_outcome_to_proto :
    (o : WriteOutcome) → write_outcome_from_proto (write_outcome_to_proto o) ≡ ok o
unfolding write_outcome_from_proto write_outcome_to_proto
write_outcome_from_proto-write_outcome_to_proto applied = refl
write_outcome_from_proto-write_outcome_to_proto (version_mismatch expected actual) = refl
write_outcome_from_proto-write_outcome_to_proto missing = refl

-- A list has room for at least one issuer and at most a thousand.
list_limit_bounds : (limit : ℕ) → (1 ≤ list_limit limit) × (list_limit limit ≤ 1000)
unfolding list_limit default_list_limit max_list_limit
list_limit_bounds limit = (ground arith, ground arith)

module _ {Time : Type 0} (wire : Wire Time) where
  pub from_str-text :
      (status : IssuerStatus)
      → IsDocumented wire
      → Statuses.from_str wire.to_uppercase (Statuses.text status) ≡ ok status
  from_str-text Statuses.active doc =
      (issuer_status-from_str_iff wire.to_uppercase (codes "ACTIVE") Statuses.active).1
        (doc.upper (codes "ACTIVE") refl)
  from_str-text Statuses.retired doc =
      (issuer_status-from_str_iff wire.to_uppercase (codes "RETIRED") Statuses.retired).1
        (doc.upper (codes "RETIRED") refl)

  -- The client reads an issuer as the engine sent it, in the same version, its securities an empty
  -- list and, where it has a CNPJ but no country, of Brazil. The fields of the issuer come from the
  -- constructors of their types, and with a CNPJ it has no other country than Brazil.
  pub issuer_from_proto-convert_versioned_issuer_to_proto :
      (fresh : IssuerId) (now : Time) (versioned : Versioned (Issuer Time))
      → IsDocumented wire
      → IsSound versioned.content
      → (IsGiven versioned.content.cnpj → MayHaveCnpj versioned.content.country_code)
      → issuer_from_proto wire fresh now (convert_versioned_issuer_to_proto wire versioned)
        ≡ ok (record {
          content = record (versioned.content) {
            country_code = shown versioned.content.cnpj versioned.content.country_code;
            securities = loaded [];
          };
          version = versioned.version;
        })
  unfolding issuer_from_proto convert_versioned_issuer_to_proto parse_issuer_id parse_timestamp
      Build.build Builder.id Builder.status Builder.created_at
  issuer_from_proto-convert_versioned_issuer_to_proto fresh now versioned doc sound may =
      let issuer = versioned.content in
      let start : IssuerBuilder Time = record {
        id = some issuer.id;
        status = some issuer.status;
        created_at = some issuer.created_at;
        name = none;
        cnpj = none;
        lei = none;
        country_code = none;
      } in
      rw
        (
          doc.read_uuid issuer.id,
          from_str-text issuer.status doc,
          doc.read_time issuer.created_at,
          set_given_lem issuer_name name_error (λ n. n) Builder.name
              (λ o. record start { name = o }) issuer.name (λ t a e. checked_name_idem 200 t e)
              sound.name (λ a. unfold Builder.name in refl),
          set_given_lem Cnpjs.parse cnpj_error Cnpjs.as_str Builder.cnpj
              (λ o. record start { name = issuer.name; cnpj = o }) issuer.cnpj
              (λ t a e. cnpj-parse-as_str t e) sound.cnpj (λ a. unfold Builder.cnpj in refl),
          set_given_lem Leis.parse lei_error Leis.as_str Builder.lei
              (λ o. record start { name = issuer.name; cnpj = issuer.cnpj; lei = o }) issuer.lei
              (λ t a e. lei-parse-as_str t e) sound.lei (λ a. unfold Builder.lei in refl),
          set_given_lem Countries.parse country_code_error Countries.as_str Builder.country_code
              (λ o. record start {
                name = issuer.name;
                cnpj = issuer.cnpj;
                lei = issuer.lei;
                country_code = o;
              })
              issuer.country_code (λ t a e. parse_of_IsCountryCode a (parse-IsCountryCode t e))
              sound.country_code (λ a. unfold Builder.country_code in refl),
          check_country-shown issuer.cnpj issuer.country_code may,
        )
        refl
