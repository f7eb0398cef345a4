-- ===== src/Domain/Issuer/Build.antt =====
-- `IssuerBuilder::build` of crates/core/src/domain/issuer.rs. A fresh id and the present time, which
-- the source makes where a field is unset, are arguments.
use valqeron.Base.{
  ◌≡◌, inl, inr, refl, ap, sym, ◌∙◌, not, [], Option, none, some, if◌then◌else◌, Bool-cases, arith,
  ◌↔◌, subst, Option-cases, Result-cases, Result, ok, err, ◌>>=◌, >>=-eq-ok, map_err, ok-injective,
}
use valqeron.Text.{
  Text, codes, text_eq, text_eq_iff, trim, trim_start, trim_end, is_whitespace, to_ascii_uppercase,
}
use valqeron.Identifiers.Fixed
use valqeron.Domain.Common.{loaded, unwrap_or, IsGiven}
use valqeron.Domain.Ids.{IssuerId}
use valqeron.Domain.Labels.IssuerStatuses as Statuses
use valqeron.Domain.Names.{NameError}
use valqeron.Domain.Issuer.Builder.{IssuerBuilder}
use valqeron.Domain.Issuer.Types.{Issuer}
use valqeron.Identifiers.Cnpj.{Cnpj}
use valqeron.Identifiers.CountryCode.{CountryCode, CountryCodeError}
use valqeron.Identifiers.CountryCode as Country

pub data IssuerBuilderError : Type 0 where
  invalid_country_for_cnpj : Text → IssuerBuilderError
  name_error : NameError → IssuerBuilderError
  country_code_error : CountryCodeError → IssuerBuilderError

-- `BRAZIL_COUNTRY_CODE`
abbrev pub brazil_country_code : Text
brazil_country_code = codes "BR"

-- What the match on the country makes of it.
unfoldable pub check_country :
    Option Cnpj → Option CountryCode → Result (Option CountryCode) IssuerBuilderError
check_country none country_code = ok country_code
check_country (some cnpj) (some code) =
    if not (text_eq (Country.as_str code) brazil_country_code)
    then err (invalid_country_for_cnpj (Country.as_str code))
    else ok (some code)
check_country (some cnpj) none =
    map_err country_code_error (Country.parse brazil_country_code) >>= λ code. ok (some code)

module _ {Time : Type 0} where
  unfoldable pub build :
      IssuerId → Time → IssuerBuilder Time → Result (Issuer Time) IssuerBuilderError
  build fresh now builder = do
    country_code ← check_country builder.cnpj builder.country_code
    ok (record {
      id = unwrap_or builder.id fresh;
      status = unwrap_or builder.status Statuses.default;
      created_at = unwrap_or builder.created_at now;
      name = builder.name;
      cnpj = builder.cnpj;
      lei = builder.lei;
      country_code = country_code;
      securities = loaded [];
    })

abbrev pub brazil : CountryCode
brazil = record { bytes = codes "BR" }

-- `brazil_country_code` is an assigned code.
pub parse-brazil : Country.parse brazil_country_code ≡ ok brazil
unfolding Country.parse Country.normalize Country.from_bytes Country.validate
    Country.validate_character_classes Country.validate_membership Country.fault Country.is_assigned
    Country.assigned Country.build_bitmap Country.build_bitmap_loop Country.has_bit
    Country.bit_index Country.assigned_codes Fixed.normalize Fixed.fill Fixed.check_each trim
    trim_start trim_end is_whitespace to_ascii_uppercase
parse-brazil = refl

-- The country that a CNPJ lets an issuer have.
abbrev pub MayHaveCnpj : Option CountryCode → Type 0
MayHaveCnpj none = Unit
MayHaveCnpj (some code) = code ≡ brazil

check_country-brazil :
    (cnpj : Cnpj) (code : Option CountryCode) {result : Option CountryCode}
    → check_country (some cnpj) code ≡ ok result
    → (result ≡ some brazil) × MayHaveCnpj code
unfolding check_country
check_country-brazil cnpj none e = (
  sym (
      ok-injective
        (ap (λ r. map_err country_code_error r >>= λ code. ok (some code)) (sym parse-brazil) ∙ e)),
  tt,
)
check_country-brazil cnpj (some code) e =
    elim (Bool-cases (text_eq (Country.as_str code) brazil_country_code)) [
      | inl same ↦
          let b : code ≡ brazil =
            ground (arith, (text_eq_iff (Country.as_str code) brazil_country_code).0 same) in
          (ground arith, b)
      | inr other ↦ absurd (ground arith)
    ]

check_country-ok :
    (cnpj : Option Cnpj) (code : Option CountryCode) {result : Option CountryCode}
    → check_country cnpj code ≡ ok result
    → IsGiven cnpj
    → MayHaveCnpj code
check_country-ok none code e has = absurd has
check_country-ok (some cnpj) code e has = (check_country-brazil cnpj code e).1

check_country_total :
    (cnpj : Option Cnpj) (code : Option CountryCode)
    → (IsGiven cnpj → MayHaveCnpj code)
    → (result : Option CountryCode) × (check_country cnpj code ≡ ok result)
unfolding check_country
check_country_total none code h = (code, refl)
check_country_total (some cnpj) none h = (some brazil, rw parse-brazil refl)
check_country_total (some cnpj) (some code) h = (some code, rw (h tt) (unfold text_eq in refl))

module _ {Time : Type 0} where
  -- An issuer that is built with a CNPJ is of Brazil, whether the country was given or not.
  pub issuer-build-brazil :
      (fresh : IssuerId) (now : Time) (builder : IssuerBuilder Time) {issuer : Issuer Time}
      → build fresh now builder ≡ ok issuer
      → IsGiven issuer.cnpj
      → issuer.country_code ≡ some brazil
  unfolding build
  issuer-build-brazil fresh now builder {issuer} e has =
      let (country, c, r) = >>=-eq-ok (check_country builder.cnpj builder.country_code) _ e in
      let same = ok-injective r in
      elim (Option-cases builder.cnpj) [
        | inl n ↦ absurd (subst IsGiven (sym (ap (λ (i : Issuer Time). i.cnpj) same) ∙ n) has)
        | inr (cnpj, s) ↦
            sym (ap (λ (i : Issuer Time). i.country_code) same)
            ∙ (check_country-brazil cnpj builder.country_code (rw s at c)).0
      ]

  -- An issuer is built exactly if it has no CNPJ, or no other country than Brazil is given.
  pub issuer-build_iff :
      (fresh : IssuerId) (now : Time) (builder : IssuerBuilder Time)
      → ((issuer : Issuer Time) × (build fresh now builder ≡ ok issuer))
        ↔ (IsGiven builder.cnpj → MayHaveCnpj builder.country_code)
  unfolding build
  issuer-build_iff fresh now builder = (
    λ h.
        check_country-ok builder.cnpj builder.country_code
          (>>=-eq-ok (check_country builder.cnpj builder.country_code) _ h.1).1,
    λ h.
        let (country, c) = check_country_total builder.cnpj builder.country_code h in
        elim (Result-cases (build fresh now builder)) [
          | inl built ↦ built
          | inr (error, failed) ↦ absurd (cc (rw c at failed))
        ],
  )
