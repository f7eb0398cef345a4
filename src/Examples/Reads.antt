-- ===== src/Examples/Reads.antt =====
-- Reads of the repositories over SQLite at a database with two issuers and a security of one.
use valqeron.Base.{
  ℕ, ◌≡◌, ◌↔◌, ◌⊎◌, inl, inr, refl, true, List, [], ◌∷◌, map, none, some, ok, All, arith, length,
}
use valqeron.Domain.Common.{Versioned, eager, not_loaded, loaded}
use valqeron.Domain.Issuer.Types.{Issuer, reconstitute}
use valqeron.Domain.Labels.{IssuerStatus, SecurityKind, SecurityStatus}
use valqeron.Domain.Labels.IssuerStatuses as IssuerStatuses
use valqeron.Domain.Ratio.{dr_ratio}
use valqeron.Domain.Labels.SecurityKinds as Kinds
use valqeron.Domain.Labels.SecurityStatuses as SecurityStatuses
use valqeron.Domain.Security.Types as SecurityTypes
use valqeron.Domain.Security.Types.{Security}
use valqeron.Examples.Databases.{lib, in_millis, lib-IsDocumented, host}
use valqeron.Sqlite.Columns.{column_datetime, canonical_timestamp}
use valqeron.Sqlite.Issuers.Eager.{issuer-list_paged-eager}
use valqeron.Sqlite.Issuers.Hydration as Hydration
use valqeron.Sqlite.Issuers.Hydration.{hydrate_rows}
use valqeron.Sqlite.Issuers.Hydration.Grouping.{owned, hydrate_rows_lem}
use valqeron.Sqlite.Issuers.Pages.{issuer-list_paged_lem}
use valqeron.Sqlite.Issuers.Queries as Queries
use valqeron.Sqlite.Issuers.Repository.{find_by_id, list_paged, securities_for_issuer_page}
use valqeron.Sqlite.Issuers.Rows as Rows
use valqeron.Sqlite.Issuers.Rows.{IssuerRow, reconstitute_with}
use valqeron.Sqlite.Paging.{read_pages}
use valqeron.Sqlite.Schema.{Tables, issuer_checks, security_checks}
use valqeron.Sqlite.Schema.Checks.{issuer_checks_iff}
use valqeron.Sqlite.Schema.Consistent.{IsConsistent}
use valqeron.Sqlite.Securities.RoundTrip.{IsSound, security-from_row-inserted_row}
use valqeron.Sqlite.Securities.Rows as SecurityRows
use valqeron.Sqlite.Securities.Rows.{SecurityRow}
use valqeron.Sqlite.Session.{Session, select}
use valqeron.Sqlite.Sql.{page}
use valqeron.Sqlite.Table.{column_u32}
use valqeron.Text.{Text, codes, text_eq, to_ascii_uppercase}

abbrev plain : Issuer ℕ
plain = record {
  id = 1;
  status = IssuerStatus.active;
  created_at = 5000;
  name = none;
  cnpj = none;
  lei = none;
  country_code = none;
  securities = not_loaded;
}

abbrev plain_share : Security ℕ
plain_share = record {
  id = 10;
  issuer_id = 1;
  kind = SecurityKind.depositary_receipt;
  status = SecurityStatus.active;
  created_at = 7000;
  name = none;
  isin = none;
  cfi = none;
  underlying_security_id = none;
  dr_ratio = some (record { receipts = 1; underlying = 2 });
}

abbrev tables : Tables
tables = record {
  issuer = Rows.inserted_row lib (record plain { id = 2 }) ∷ Rows.inserted_row lib plain ∷ [];
  security = SecurityRows.inserted_row lib plain_share ∷ [];
}

abbrev session : Session Tables ℕ
session = record { tables = tables; world = 1 }

tables-IsConsistent : IsConsistent tables
unfolding issuer_checks security_checks Rows.inserted_row SecurityRows.inserted_row
    canonical_timestamp text_eq
tables-IsConsistent = record {
  issuer_ids = omega arith;
  cnpjs = ((tt, tt), (tt, tt));
  leis = ((tt, tt), (tt, tt));
  issuers_checked = (refl, (refl, tt));
  security_ids = (tt, tt);
  isins = (tt, tt);
  securities_checked = (refl, tt);
  issuers_known = (inr (inl refl), tt);
  underlying_known = (tt, tt);
}

abbrev first_page : List (Versioned (Issuer ℕ))
first_page =
    record { content = record plain { securities = loaded (plain_share ∷ []) }; version = 1 } ∷ []

first_page_read : list_paged lib host none 1 eager session ≡ ok first_page
unfolding list_paged select Queries.list_paged page Rows.from_row Rows.column_status
    IssuerStatuses.from_str column_datetime canonical_timestamp Rows.column_opt_name
    Rows.column_opt_cnpj Rows.column_opt_lei Rows.column_opt_country_code column_u32
    Rows.inserted_row securities_for_issuer_page SecurityRows.from_row SecurityRows.column_kind
    Kinds.from_str SecurityRows.column_status SecurityStatuses.from_str SecurityRows.column_opt_name
    SecurityRows.column_opt_isin SecurityRows.column_opt_cfi SecurityRows.column_opt_dr_ratio
    SecurityRows.inserted_row hydrate_rows Hydration.group_rows Hydration.push_to Hydration.attach
    Hydration.removed Hydration.without reconstitute_with reconstitute SecurityTypes.reconstitute
    text_eq to_ascii_uppercase dr_ratio
first_page_read = refl

issuer-list_paged-eager_example :
    All (λ v. find_by_id lib host v.content.id eager session ≡ ok (some v)) first_page
issuer-list_paged-eager_example =
    issuer-list_paged-eager lib host none 1 session tables-IsConsistent first_page_read

abbrev row_of_id : ℕ → IssuerRow ℕ
row_of_id id = record {
  inner = record {
    content = record {
      id = id;
      status = IssuerStatus.active;
      created_at = 5000;
      name = none;
      cnpj = none;
      lei = none;
      country_code = none;
      securities = not_loaded;
    };
    version = 1;
  };
}

all_rows_read : Queries.list_all lib tables ≡ ok (row_of_id 1 ∷ row_of_id 2 ∷ [])
unfolding Queries.list_all Rows.from_row Rows.column_status IssuerStatuses.from_str column_datetime
    canonical_timestamp Rows.column_opt_name Rows.column_opt_cnpj Rows.column_opt_lei
    Rows.column_opt_country_code column_u32 Rows.inserted_row text_eq to_ascii_uppercase
all_rows_read = refl

issuer-list_paged_lem_example :
    read_pages
      (λ (r : IssuerRow ℕ). r.inner.content.id)
      (λ after. Queries.list_paged lib after 1 tables)
      2
      none
    ≡ ok (row_of_id 1 ∷ row_of_id 2 ∷ [])
issuer-list_paged_lem_example =
    issuer-list_paged_lem lib 2 1 tables tables-IsConsistent.issuer_ids all_rows_read

plain_share-IsSound : IsSound lib in_millis plain_share
plain_share-IsSound = record { name = tt; isin = tt; cfi = tt; dr_ratio = omega arith }

security-from_row-inserted_row_example :
    SecurityRows.from_row lib (record (SecurityRows.inserted_row lib plain_share) { version = 3 })
    ≡ ok (record { inner = record { content = plain_share; version = 3 } })
security-from_row-inserted_row_example =
    security-from_row-inserted_row lib in_millis plain_share 3 lib-IsDocumented plain_share-IsSound
      (omega arith)

abbrev share_row : SecurityRow ℕ
share_row = record { inner = record { content = plain_share; version = 1 } }

abbrev foreign_row : SecurityRow ℕ
foreign_row = record {
  inner = record { content = record plain_share { issuer_id = 9 }; version = 1 };
}

hydrate_rows_lem_example :
    hydrate_rows (row_of_id 1 ∷ row_of_id 2 ∷ []) (share_row ∷ foreign_row ∷ [])
    ≡ map
        (λ row.
          reconstitute_with row.inner (owned row.inner.content.id (share_row ∷ foreign_row ∷ [])))
        (row_of_id 1 ∷ row_of_id 2 ∷ [])
hydrate_rows_lem_example =
    hydrate_rows_lem (row_of_id 1 ∷ row_of_id 2 ∷ []) (share_row ∷ foreign_row ∷ []) (omega arith)

issuer_checks_iff_example :
    (issuer_checks (record (Rows.inserted_row lib plain) { cnpj = some (codes "12ABC34501DE35") })
      ≡ true)
    ↔ (((IssuerStatuses.text IssuerStatus.active ≡ codes "ACTIVE")
          ⊎ (IssuerStatuses.text IssuerStatus.active ≡ codes "RETIRED"))
        × ((c : Text) → none ≡ some c → length c ≡ 2)
        × (Unit {0} → (c : Text) → none ≡ some c → c ≡ codes "BR"))
unfolding Rows.inserted_row
issuer_checks_iff_example =
    issuer_checks_iff
      (record (Rows.inserted_row lib plain) { cnpj = some (codes "12ABC34501DE35") })
