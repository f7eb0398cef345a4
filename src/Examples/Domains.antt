-- ===== src/Examples/Domains.antt =====
-- The entities, names and labels at concrete inputs.
use valqeron.Base.{ℕ, ◌≡◌, ◌↔◌, refl, [], some, none, map, ok, ltb}
use valqeron.Text.{
  Text, codes, trim, trim_start, trim_end, is_whitespace, to_ascii_uppercase, text_eq,
}
use valqeron.Domain.Common.{loaded, IsGiven, unwrap_or}
use valqeron.Domain.Labels.{IssuerStatus, SecurityKind, ListingRole, ListingStatus}
use valqeron.Domain.Issuer.Build as IssuerBuild
use valqeron.Domain.Issuer.Builder as IssuerBuilder
use valqeron.Domain.Issuer.Types.{Issuer}
use valqeron.Domain.Labels.ListingStatuses as ListingStatuses
use valqeron.Domain.Listing.Build as ListingBuild
use valqeron.Domain.Listing.Builder as ListingBuilder
use valqeron.Domain.Listing.Types.{Listing}
use valqeron.Domain.Security.Build as SecurityBuild
use valqeron.Domain.Security.Builder as SecurityBuilder
use valqeron.Domain.Security.Types.{Security}
use valqeron.Domain.Symbols.{ticker_symbol}
use valqeron.Identifiers.Cnpj.{Cnpj}

abbrev number : Cnpj
number = record { bytes = codes "33592510000154" }

abbrev issuer_builder : IssuerBuilder.IssuerBuilder ℕ
issuer_builder = record IssuerBuilder.new {
  cnpj = some number;
  country_code = some (record { bytes = codes "BR" });
}

abbrev issuer : Issuer ℕ
issuer = record {
  id = 1;
  status = IssuerStatus.active;
  created_at = 0;
  name = none;
  cnpj = some number;
  lei = none;
  country_code = some (record { bytes = codes "BR" });
  securities = loaded [];
}

issuer_built : IssuerBuild.build 1 0 issuer_builder ≡ ok issuer
unfolding IssuerBuild.build IssuerBuild.check_country text_eq
issuer_built = refl

issuer-build_iff_example :
    ((x : Issuer ℕ) × (IssuerBuild.build 1 0 issuer_builder ≡ ok x))
    ↔ (IsGiven issuer_builder.cnpj → IssuerBuild.MayHaveCnpj issuer_builder.country_code)
issuer-build_iff_example = IssuerBuild.issuer-build_iff 1 0 issuer_builder

abbrev security_builder : SecurityBuilder.SecurityBuilder ℕ
security_builder = record (SecurityBuilder.new 1 SecurityKind.depositary_receipt) {
  underlying_security_id = some 10;
}

security-build_iff_example :
    ((s : Security ℕ) × (SecurityBuild.build 11 0 security_builder ≡ ok s))
    ↔ SecurityBuild.Buildable 11 security_builder
security-build_iff_example = SecurityBuild.security-build_iff 11 0 security_builder

abbrev listing_builder : ListingBuilder.ListingBuilder ℕ ℕ
listing_builder = record (ListingBuilder.new 10 20 (record { value = codes "VALE3" })) {
  status = some ListingStatus.delisted;
  listed_on = some 5;
  delisted_on = some 7;
}

abbrev listing : Listing ℕ ℕ
listing = record {
  id = 30;
  security_id = 10;
  venue_id = 20;
  symbol = record { value = codes "VALE3" };
  role = ListingRole.primary;
  status = ListingStatus.delisted;
  created_at = 0;
  currency = none;
  segment = none;
  listed_on = some 5;
  delisted_on = some 7;
}

listing_built : ListingBuild.build ltb 30 0 listing_builder ≡ ok listing
unfolding ListingBuild.build ListingBuild.check_dates
listing_built = refl

listing-build_iff_example :
    ((l : Listing ℕ ℕ) × (ListingBuild.build ltb 30 0 listing_builder ≡ ok l)) ↔ (
      (IsGiven listing_builder.delisted_on
        → unwrap_or listing_builder.status ListingStatuses.default ≡ ListingStatus.delisted)
      × ListingBuild.InOrder ltb listing_builder.listed_on listing_builder.delisted_on)
listing-build_iff_example = ListingBuild.listing-build_iff ltb 30 0 listing_builder

ticker_accepted : ticker_symbol (codes " vale3 ") ≡ ok (record { value = codes "VALE3" })
unfolding ticker_symbol trim trim_start trim_end is_whitespace to_ascii_uppercase
ticker_accepted = refl

-- On ASCII text this is what `str::to_uppercase` does.
abbrev upper : Text → Text
upper = map to_ascii_uppercase
