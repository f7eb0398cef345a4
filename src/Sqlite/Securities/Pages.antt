-- ===== src/Sqlite/Securities/Pages.antt =====
-- The pages of securities together.
use valqeron.Base.{ℕ, ◌*◌, ◌≡◌, sym, ap, none, take, List, ok, >>=-eq-ok, ok-injective}
use valqeron.Domain.Security.Types.{reconstitute}
use valqeron.Sqlite.Columns.{Library, column_datetime}
use valqeron.Sqlite.Securities.Queries.{list_all, list_paged}
use valqeron.Sqlite.Securities.Rows.{
  SecurityRow, from_row, column_kind, column_status, column_opt_name, column_opt_isin,
  column_opt_cfi, column_opt_dr_ratio, column,
}
use valqeron.Sqlite.Paging.{read_pages, read_pages-take}
use valqeron.Sqlite.Schema.{SecurityRecord, Tables, security_table}
use valqeron.Sqlite.Table.{HasDistinctIds, column_u32}
use valqeron.Text.{codes}

module _ {Time : Type 0} (lib : Library Time) where
  -- The row that is read has the ids of the row in the table.
  pub from_row-ids :
      (row : SecurityRecord) (r : SecurityRow Time)
      → from_row lib row ≡ ok r
      → (r.inner.content.id ≡ row.id) × (r.inner.content.issuer_id ≡ row.issuer_id)
  unfolding from_row reconstitute
  from_row-ids row r e =
      let (_, _, e₁) = >>=-eq-ok (column_kind lib row.kind) _ e in
      let (_, _, e₂) = >>=-eq-ok (column_status lib row.status) _ e₁ in
      let (_, _, e₃) =
        >>=-eq-ok (column_datetime lib (column (codes "created_at")) row.created_at) _ e₂ in
      let (_, _, e₄) = >>=-eq-ok (column_opt_name lib row.name) _ e₃ in
      let (_, _, e₅) = >>=-eq-ok (column_opt_isin lib row.isin) _ e₄ in
      let (_, _, e₆) = >>=-eq-ok (column_opt_cfi lib row.cfi) _ e₅ in
      let (_, _, e₇) =
        >>=-eq-ok (column_opt_dr_ratio row.dr_ratio_receipts row.dr_ratio_underlying) _ e₆ in
      let (_, _, e₈) = >>=-eq-ok (column_u32 (column (codes "version")) row.version) _ e₇ in
      let same = sym (ok-injective e₈) in
      (ap (λ x. x.inner.content.id) same, ap (λ x. x.inner.content.issuer_id) same)

  -- Pages of securities, each after the last id of the one before it, are together as many of the
  -- first rows of the whole list, in its order: none is left out and none comes twice.
  pub security-list_paged_lem :
      (n limit : ℕ) (t : Tables) {rows : List (SecurityRow Time)}
      → HasDistinctIds security_table t
      → list_all lib t ≡ ok rows
      → read_pages (λ r. r.inner.content.id) (λ after. list_paged lib after limit t) n none
        ≡ ok (take (n * limit) rows)
  unfolding list_all list_paged
  security-list_paged_lem n limit t d e =
      read_pages-take (from_row lib) (λ r. r.id) (λ r. r.inner.content.id) n limit t.security
        (λ x r read. (from_row-ids x r read).0) d e
