-- ===== src/Sqlite/Issuers/Queries.antt =====
-- The statements of crates/infrastructure/src/sqlite/repositories/issuer.rs.
use valqeron.Base.{ℕ, ◌+◌, Bool, List, Option, Result, ok}
use valqeron.Domain.Common.{is_some}
use valqeron.Domain.Ids.{IssuerId}
use valqeron.Domain.Issuer.Patch.{IssuerPatch}
use valqeron.Domain.Issuer.Types.{Issuer}
use valqeron.Domain.Labels.IssuerStatuses as Statuses
use valqeron.Identifiers.Cnpj as Cnpjs
use valqeron.Identifiers.Cnpj.{Cnpj}
use valqeron.Identifiers.CountryCode as Countries
use valqeron.Identifiers.Lei as Leis
use valqeron.Identifiers.Lei.{Lei}
use valqeron.Sqlite.Columns.{Library, map_option, transpose}
use valqeron.Sqlite.Issuers.Rows.{IssuerRow, from_row, inserted_row}
use valqeron.Sqlite.Schema.{IssuerRecord, Tables, issuer_table}
use valqeron.Sqlite.Sql.{
  SqlError, query_row, order_by, collect, coalesce, coalesce_value, equals, page,
}
use valqeron.Sqlite.Table.{insert_into, update_guarded, delete_guarded, row_of}

unfoldable pub patched_row : IssuerPatch → IssuerRecord → IssuerRecord
patched_row patch row = record row {
  name = coalesce patch.name row.name;
  status = coalesce_value (map_option Statuses.text patch.status) row.status;
  cnpj = coalesce (map_option Cnpjs.as_str patch.cnpj) row.cnpj;
  lei = coalesce (map_option Leis.as_str patch.lei) row.lei;
  country_code = coalesce (map_option Countries.as_str patch.country_code) row.country_code;
  version = row.version + 1;
}

unfoldable pub updated_row : {Time : Type 0} → Issuer Time → IssuerRecord → IssuerRecord
updated_row issuer row = record row {
  name = issuer.name;
  status = Statuses.text issuer.status;
  cnpj = map_option Cnpjs.as_str issuer.cnpj;
  lei = map_option Leis.as_str issuer.lei;
  country_code = map_option Countries.as_str issuer.country_code;
  version = row.version + 1;
}

unfoldable pub exists : IssuerId → Tables → Result Bool SqlError
exists id t = ok (is_some (row_of issuer_table id t))

unfoldable pub exists_by_cnpj : Cnpj → Tables → Result Bool SqlError
exists_by_cnpj cnpj t = ok (is_some (query_row (λ r. equals (Cnpjs.as_str cnpj) r.cnpj) t.issuer))

unfoldable pub exists_by_lei : Lei → Tables → Result Bool SqlError
exists_by_lei lei t = ok (is_some (query_row (λ r. equals (Leis.as_str lei) r.lei) t.issuer))

unfoldable pub apply_patch : IssuerId → ℕ → IssuerPatch → Tables → Result (ℕ × Tables) SqlError
apply_patch id expected_version patch =
    update_guarded issuer_table id expected_version (patched_row patch)

unfoldable pub update : {Time : Type 0} → Issuer Time → ℕ → Tables → Result (ℕ × Tables) SqlError
update issuer expected_version =
    update_guarded issuer_table issuer.id expected_version (updated_row issuer)

unfoldable pub delete : IssuerId → ℕ → Tables → Result (ℕ × Tables) SqlError
delete id expected_version = delete_guarded issuer_table id expected_version

module _ {Time : Type 0} (lib : Library Time) where
  unfoldable pub find_by_id : IssuerId → Tables → Result (Option (IssuerRow Time)) SqlError
  find_by_id id t = transpose (map_option (from_row lib) (row_of issuer_table id t))

  unfoldable pub list_all : Tables → Result (List (IssuerRow Time)) SqlError
  list_all t = collect (from_row lib) (order_by (λ r. r.id) t.issuer)

  unfoldable pub list_paged : Option IssuerId → ℕ → Tables → Result (List (IssuerRow Time)) SqlError
  list_paged after limit t = collect (from_row lib) (page (λ r. r.id) after limit t.issuer)

  unfoldable pub insert : Issuer Time → Tables → Result (ℕ × Tables) SqlError
  insert issuer = insert_into issuer_table (inserted_row lib issuer)
