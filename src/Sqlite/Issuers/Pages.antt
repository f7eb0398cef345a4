-- ===== src/Sqlite/Issuers/Pages.antt =====
-- The pages of issuers together.
use valqeron.Base.{ℕ, ◌*◌, ◌≡◌, sym, ap, none, take, List, ok, >>=-eq-ok, ok-injective}
use valqeron.Sqlite.Columns.{Library, column_datetime}
use valqeron.Sqlite.Issuers.Queries.{list_all, list_paged}
use valqeron.Sqlite.Issuers.Rows.{
  IssuerRow, from_row, column_status, column_opt_name, column_opt_cnpj, column_opt_lei,
  column_opt_country_code, column,
}
use valqeron.Sqlite.Paging.{read_pages, read_pages-take}
use valqeron.Sqlite.Schema.{IssuerRecord, Tables, issuer_table}
use valqeron.Sqlite.Table.{HasDistinctIds, column_u32}
use valqeron.Text.{codes}

module _ {Time : Type 0} (lib : Library Time) where
  -- The row that is read has the id of the row in the table.
  pub from_row-id :
      (row : IssuerRecord) (r : IssuerRow Time)
      → from_row lib row ≡ ok r
      → r.inner.content.id ≡ row.id
  unfolding from_row
  from_row-id row r e =
      let (_, _, e₁) = >>=-eq-ok (column_status lib row.status) _ e in
      let (_, _, e₂) =
        >>=-eq-ok (column_datetime lib (column (codes "created_at")) row.created_at) _ e₁ in
      let (_, _, e₃) = >>=-eq-ok (column_opt_name lib row.name) _ e₂ in
      let (_, _, e₄) = >>=-eq-ok (column_opt_cnpj lib row.cnpj) _ e₃ in
      let (_, _, e₅) = >>=-eq-ok (column_opt_lei lib row.lei) _ e₄ in
      let (_, _, e₆) = >>=-eq-ok (column_opt_country_code lib row.country_code) _ e₅ in
      let (_, _, e₇) = >>=-eq-ok (column_u32 (column (codes "version")) row.version) _ e₆ in
      ap (λ x. x.inner.content.id) (sym (ok-injective e₇))

  -- Pages of issuers, each after the last id of the one before it, are together as many of the
  -- first rows of the whole list, in its order: none is left out and none comes twice.
  pub issuer-list_paged_lem :
      (n limit : ℕ) (t : Tables) {rows : List (IssuerRow Time)}
      → HasDistinctIds issuer_table t
      → list_all lib t ≡ ok rows
      → read_pages (λ r. r.inner.content.id) (λ after. list_paged lib after limit t) n none
        ≡ ok (take (n * limit) rows)
  unfolding list_all list_paged
  issuer-list_paged_lem n limit t d e =
      read_pages-take (from_row lib) (λ r. r.id) (λ r. r.inner.content.id) n limit t.issuer
        from_row-id d e
