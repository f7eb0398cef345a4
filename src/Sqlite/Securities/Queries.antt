-- ===== src/Sqlite/Securities/Queries.antt =====
-- The statements of crates/infrastructure/src/sqlite/repositories/securities.rs.
use valqeron.Base.{ℕ, ◌+◌, Bool, ◌==◌, List, Option, Result, ok}
use valqeron.Domain.Common.{is_some}
use valqeron.Domain.Ids.{IssuerId, SecurityId}
use valqeron.Domain.Labels.SecurityStatuses as Statuses
use valqeron.Domain.Security.Patch.{SecurityPatch}
use valqeron.Domain.Security.Types.{Security}
use valqeron.Identifiers.Cfi as Cfis
use valqeron.Identifiers.Isin as Isins
use valqeron.Identifiers.Isin.{Isin}
use valqeron.Sqlite.Columns.{Library, map_option, transpose}
use valqeron.Sqlite.Schema.{SecurityRecord, Tables, security_table}
use valqeron.Sqlite.Securities.Rows.{SecurityRow, from_row, inserted_row}
use valqeron.Sqlite.Sql.{
  SqlError, where_, query_row, order_by, collect, coalesce, coalesce_value, equals, page,
}
use valqeron.Sqlite.Table.{insert_into, update_guarded, delete_guarded, row_of}

unfoldable pub patched_row : SecurityPatch → SecurityRecord → SecurityRecord
patched_row patch row = record row {
  name = coalesce patch.name row.name;
  status = coalesce_value (map_option Statuses.text patch.status) row.status;
  isin = coalesce (map_option Isins.as_str patch.isin) row.isin;
  cfi = coalesce (map_option Cfis.as_str patch.cfi) row.cfi;
  dr_ratio_receipts = coalesce (map_option (λ r. r.receipts) patch.dr_ratio) row.dr_ratio_receipts;
  dr_ratio_underlying =
      coalesce (map_option (λ r. r.underlying) patch.dr_ratio) row.dr_ratio_underlying;
  version = row.version + 1;
}

-- The issuer, the kind, the underlying security and the time of creation stay.
unfoldable pub updated_row : {Time : Type 0} → Security Time → SecurityRecord → SecurityRecord
updated_row security row = record row {
  name = security.name;
  status = Statuses.text security.status;
  isin = map_option Isins.as_str security.isin;
  cfi = map_option Cfis.as_str security.cfi;
  dr_ratio_receipts = map_option (λ r. r.receipts) security.dr_ratio;
  dr_ratio_underlying = map_option (λ r. r.underlying) security.dr_ratio;
  version = row.version + 1;
}

unfoldable pub exists : SecurityId → Tables → Result Bool SqlError
exists id t = ok (is_some (row_of security_table id t))

unfoldable pub exists_by_isin : Isin → Tables → Result Bool SqlError
exists_by_isin isin t = ok (is_some (query_row (λ r. equals (Isins.as_str isin) r.isin) t.security))

unfoldable pub apply_patch : SecurityId → ℕ → SecurityPatch → Tables → Result (ℕ × Tables) SqlError
apply_patch id expected_version patch =
    update_guarded security_table id expected_version (patched_row patch)

unfoldable pub update : {Time : Type 0} → Security Time → ℕ → Tables → Result (ℕ × Tables) SqlError
update security expected_version =
    update_guarded security_table security.id expected_version (updated_row security)

unfoldable pub delete : SecurityId → ℕ → Tables → Result (ℕ × Tables) SqlError
delete id expected_version = delete_guarded security_table id expected_version

module _ {Time : Type 0} (lib : Library Time) where
  unfoldable pub find_by_id : SecurityId → Tables → Result (Option (SecurityRow Time)) SqlError
  find_by_id id t = transpose (map_option (from_row lib) (row_of security_table id t))

  unfoldable pub find_by_isin : Isin → Tables → Result (Option (SecurityRow Time)) SqlError
  find_by_isin isin t =
      transpose
        (map_option (from_row lib) (query_row (λ r. equals (Isins.as_str isin) r.isin) t.security))

  unfoldable pub list_all : Tables → Result (List (SecurityRow Time)) SqlError
  list_all t = collect (from_row lib) (order_by (λ r. r.id) t.security)

  unfoldable pub list_by_issuer : IssuerId → Tables → Result (List (SecurityRow Time)) SqlError
  list_by_issuer issuer_id t =
      collect (from_row lib)
        (order_by (λ r. r.id) (where_ (λ r. r.issuer_id == issuer_id) t.security))

  unfoldable pub list_paged :
      Option SecurityId → ℕ → Tables → Result (List (SecurityRow Time)) SqlError
  list_paged after limit t = collect (from_row lib) (page (λ r. r.id) after limit t.security)

  unfoldable pub insert : Security Time → Tables → Result (ℕ × Tables) SqlError
  insert security = insert_into security_table (inserted_row lib security)
