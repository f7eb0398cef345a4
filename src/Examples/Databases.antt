-- ===== src/Examples/Databases.antt =====
-- The repositories over SQLite at a database with one issuer and one security, on a host that is
-- busy at first.
use valqeron.Base.{
  ℕ, ◌+◌, ◌*◌, ◌/◌, ◌≡◌, inl, inr, refl, ap, true, ◌==◌, ◌&&◌, if◌then◌else◌, List, [], ◌∷◌, map,
  Option, none, some, all, Bool-cases, arith,
}
use valqeron.Text.{Text, text_eq, to_ascii_uppercase}
use valqeron.Domain.Common.{not_loaded}
use valqeron.Domain.Issuer.Build.{brazil}
use valqeron.Domain.Issuer.Types.{Issuer}
use valqeron.Domain.Labels.{IssuerStatus}
use valqeron.Examples.Cnpjs.{company}
use valqeron.Examples.Registrations.{vale, vale_share}
use valqeron.Sqlite.Columns.{Library, canonical_timestamp, IsDocumented, is_unchanged}
use valqeron.Sqlite.Issuers.Rows as IssuerRows
use valqeron.Sqlite.Schema.{Tables, issuer_checks, security_checks}
use valqeron.Sqlite.Schema.Consistent.{IsConsistent}
use valqeron.Sqlite.Securities.Rows as SecurityRows
use valqeron.Sqlite.Session.{Host, Session}
use valqeron.Sqlite.Sql.{sqlite_failure, database_busy}

abbrev first_or : List ℕ → Option ℕ
first_or [] = none
first_or (k ∷ ks) = some (k * 1000)

abbrev pub lib : Library ℕ
lib = record {
  to_uppercase = λ t. map to_ascii_uppercase t;
  to_rfc3339_millis = λ n. (n / 1000) ∷ [];
  parse_from_rfc3339 = first_or;
  cfi_categories = [];
}

abbrev pub in_millis : ℕ → ℕ
in_millis n = n / 1000 * 1000

upper_unchanged : (t : Text) → all is_unchanged t ≡ true → map to_ascii_uppercase t ≡ t
unfolding to_ascii_uppercase
upper_unchanged [] h = refl
upper_unchanged (c ∷ t) h = elim (Bool-cases (is_unchanged c)) [
  | inl y ↦
      let same : to_ascii_uppercase c ≡ c = ground (arith, y) in
      rw same (ap (◌∷◌ c) (upper_unchanged t (rw y at h)))
  | inr n ↦ absurd (ground arith)
]

pub lib-IsDocumented : IsDocumented lib in_millis
lib-IsDocumented = record { upper = upper_unchanged; read = λ time. refl }

-- Busy at the first call, and free from then on.
abbrev pub host : Host ℕ
host = record {
  refuses = λ w n. if w == 0 && n == 0 then some (sqlite_failure database_busy) else none;
  next = λ w. w + 1;
}

abbrev pub acme : Issuer ℕ
acme = record {
  id = 2;
  status = IssuerStatus.active;
  created_at = 1700000000123;
  name = none;
  cnpj = some company;
  lei = none;
  country_code = some brazil;
  securities = not_loaded;
}

unfoldable pub tables : Tables
tables = record {
  issuer = IssuerRows.inserted_row lib vale ∷ [];
  security = SecurityRows.inserted_row lib vale_share ∷ [];
}

abbrev pub session : Session Tables ℕ
session = record { tables = tables; world = 0 }

pub tables-IsConsistent : IsConsistent tables
unfolding tables issuer_checks security_checks IssuerRows.inserted_row SecurityRows.inserted_row
    canonical_timestamp text_eq
tables-IsConsistent = record {
  issuer_ids = (tt, tt);
  cnpjs = (tt, tt);
  leis = (tt, tt);
  issuers_checked = (refl, tt);
  security_ids = (tt, tt);
  isins = (tt, tt);
  securities_checked = (refl, tt);
  issuers_known = (inl refl, tt);
  underlying_known = (tt, tt);
}
