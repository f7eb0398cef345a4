-- ===== src/Sqlite/Schema.antt =====
-- migrations/001_create_initial_schema.sql: the tables `issuer` and `security` with their
-- constraints. A BLOB that holds a UUID stands here for its 128-bit number, whose order is that of
-- the bytes.
pub mod Consistent
pub mod Checks
pub mod KeptIssuers
pub mod KeptSecurities
use valqeron.Base.{
  ℕ, Bool, true, false, not, ◌&&◌, ◌||◌, ◌==◌, ltb, length, List, [], Option, none, some,
}
use valqeron.Domain.Steps.{any_of}
use valqeron.Sqlite.Sql.{Truth, truth, either, not_violated, is_null, compares}
use valqeron.Sqlite.Table.{Table}
use valqeron.Text.{Text, codes, text_eq}

pub record IssuerRecord : Type 0 where
  pub id : ℕ
  pub name : Option Text
  pub status : Text
  pub created_at : Text
  pub version : ℕ
  pub cnpj : Option Text
  pub lei : Option Text
  pub country_code : Option Text

pub record SecurityRecord : Type 0 where
  pub id : ℕ
  pub issuer_id : ℕ
  pub name : Option Text
  pub kind : Text
  pub status : Text
  pub created_at : Text
  pub version : ℕ
  pub isin : Option Text
  pub cfi : Option Text
  pub underlying_security_id : Option ℕ
  pub dr_ratio_receipts : Option ℕ
  pub dr_ratio_underlying : Option ℕ

pub record Tables : Type 0 where
  pub issuer : List IssuerRecord
  pub security : List SecurityRecord

-- Two values of a column that is UNIQUE; two NULLs are not the same.
abbrev pub clashes : Option Text → Option Text → Bool
clashes none other = false
clashes (some a) none = false
clashes (some a) (some b) = text_eq b a

abbrev pub status_check : Text → Truth
status_check status =
    either (truth (text_eq status (codes "ACTIVE"))) (truth (text_eq status (codes "RETIRED")))

-- `country_code IS NULL OR length(country_code) = 2`
abbrev pub country_check : Option Text → Truth
country_check country_code =
    either (truth (is_null country_code)) (compares (λ c. length c == 2) country_code)

-- `cnpj IS NULL OR country_code = 'BR'`
abbrev pub cnpj_check : Option Text → Option Text → Truth
cnpj_check cnpj country_code =
    either (truth (is_null cnpj)) (compares (λ c. text_eq c (codes "BR")) country_code)

unfoldable pub issuer_checks : IssuerRecord → Bool
issuer_checks r =
    not_violated (status_check r.status)
    && not_violated (country_check r.country_code)
    && not_violated (cnpj_check r.cnpj r.country_code)

abbrev pub kind_check : Text → Truth
kind_check kind = either (truth (text_eq kind (codes "COMMON_SHARE"))) (
    either (truth (text_eq kind (codes "PREFERRED_SHARE"))) (
      either (truth (text_eq kind (codes "UNIT")))
        (truth (text_eq kind (codes "DEPOSITARY_RECEIPT")))))

abbrev pub cfi_check : Option Text → Truth
cfi_check cfi = either (truth (is_null cfi)) (compares (λ c. length c == 6) cfi)

-- `dr_ratio_… IS NULL OR dr_ratio_… > 0`
abbrev pub positive_check : Option ℕ → Truth
positive_check n = either (truth (is_null n)) (compares (ltb 0) n)

abbrev pub bool_eq : Bool → Bool → Bool
bool_eq true b = b
bool_eq false b = not b

-- `underlying_security_id IS NULL OR underlying_security_id <> id`
abbrev pub underlying_check : Option ℕ → ℕ → Truth
underlying_check underlying id =
    either (truth (is_null underlying)) (compares (λ u. not (u == id)) underlying)

unfoldable pub security_checks : SecurityRecord → Bool
security_checks r =
    not_violated (kind_check r.kind)
    && not_violated (status_check r.status)
    && not_violated (cfi_check r.cfi)
    && not_violated (positive_check r.dr_ratio_receipts)
    && not_violated (positive_check r.dr_ratio_underlying)
    && bool_eq (is_null r.dr_ratio_receipts) (is_null r.dr_ratio_underlying)
    && (text_eq r.kind (codes "DEPOSITARY_RECEIPT")
        || (is_null r.underlying_security_id
            && is_null r.dr_ratio_receipts
            && is_null r.dr_ratio_underlying))
    && not_violated (underlying_check r.underlying_security_id r.id)

-- The row that an underlying security must have.
abbrev pub refers : Option ℕ → List SecurityRecord → Bool
refers none rows = true
refers (some u) rows = any_of (λ o. o.id == u) rows

abbrev pub is_underlying_of : ℕ → SecurityRecord → Bool
is_underlying_of id o = elim o.underlying_security_id [ some u ↦ u == id | none ↦ false ]

unfoldable pub issuer_admits : Tables → IssuerRecord → List IssuerRecord → Bool
issuer_admits t r others =
    issuer_checks r
    && not (any_of (λ o. clashes r.cnpj o.cnpj) others)
    && not (any_of (λ o. clashes r.lei o.lei) others)

unfoldable pub issuer_released : Tables → IssuerRecord → Bool
issuer_released t r = not (any_of (λ s. s.issuer_id == r.id) t.security)

unfoldable pub security_admits : Tables → SecurityRecord → List SecurityRecord → Bool
security_admits t r others =
    security_checks r
    && not (any_of (λ o. clashes r.isin o.isin) others)
    && any_of (λ i. i.id == r.issuer_id) t.issuer
    && refers r.underlying_security_id t.security

unfoldable pub security_released : Tables → SecurityRecord → Bool
security_released t r = not (any_of (is_underlying_of r.id) t.security)

abbrev pub issuer_table : Table Tables IssuerRecord
issuer_table = record {
  rows = λ t. t.issuer;
  put = λ rows t. record t { issuer = rows };
  id_of = λ r. r.id;
  version_of = λ r. r.version;
  admits = issuer_admits;
  released = issuer_released;
}

abbrev pub security_table : Table Tables SecurityRecord
security_table = record {
  rows = λ t. t.security;
  put = λ rows t. record t { security = rows };
  id_of = λ r. r.id;
  version_of = λ r. r.version;
  admits = security_admits;
  released = security_released;
}
