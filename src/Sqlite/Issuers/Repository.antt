-- ===== src/Sqlite/Issuers/Repository.antt =====
-- `SqliteIssuerRepository` of crates/infrastructure/src/sqlite/repositories/issuer.rs. The two
-- statements of an eager read see the same tables here.
use valqeron.Base.{ℕ, ◌==◌, List, map, Option, none, some, Result, map_err, ◌>>=◌, ok}
use valqeron.Domain.Common.{Versioned, LoadMode, lazy, eager}
use valqeron.Domain.Ids.{IssuerId}
use valqeron.Domain.Issuer.Service.{IssuerRepository}
use valqeron.Domain.Issuer.Types.{Issuer}
use valqeron.Domain.Steps.{any_of}
use valqeron.Sqlite.Columns.{Library}
use valqeron.Sqlite.Issuers.Hydration.{hydrate_rows}
use valqeron.Sqlite.Issuers.Queries as Queries
use valqeron.Sqlite.Issuers.Rows.{IssuerRow, reconstitute_lazy, reconstitute_with}
use valqeron.Sqlite.Schema.{Tables, issuer_table}
use valqeron.Sqlite.Securities.Queries as Securities
use valqeron.Sqlite.Securities.Rows as SecurityRows
use valqeron.Sqlite.Securities.Rows.{SecurityRow}
use valqeron.Sqlite.Session.{Host, Session, select, execute, guarded, retrying, discard}
use valqeron.Sqlite.Sql.{SqlError, StorageFault, backend, collect, order_by, where_, page}
use valqeron.Sqlite.Table.{version_sql}

module _ {Time : Type 0} (lib : Library Time) where
  -- `ORDER BY s.issuer_id, s.id`: the sort is stable, so the lesser key comes first.
  unfoldable pub securities_for_all_issuers : Tables → Result (List (SecurityRow Time)) SqlError
  securities_for_all_issuers t =
      collect (SecurityRows.from_row lib)
        (order_by (λ s. s.issuer_id) (order_by (λ s. s.id) t.security))

  -- The securities that join a row of the page.
  unfoldable pub securities_for_issuer_page :
      Option IssuerId → ℕ → Tables → Result (List (SecurityRow Time)) SqlError
  securities_for_issuer_page after limit t = collect (SecurityRows.from_row lib) (
      order_by (λ s. s.issuer_id)
        (order_by (λ s. s.id)
          (where_ (λ s. any_of (λ i. i.id == s.issuer_id) (page (λ i. i.id) after limit t.issuer))
            t.security)))

module _ {Time World : Type 0} (lib : Library Time) (host : Host World) where
  abbrev pub find_in_mode :
      IssuerId
      → LoadMode
      → Option (IssuerRow Time)
      → Session Tables World
      → Result (Option (Versioned (Issuer Time))) SqlError
  find_in_mode id mode none s = ok none
  find_in_mode id lazy (some row) s = ok (some (reconstitute_lazy row))
  find_in_mode id eager (some row) s = do
    rows ← select host 1 (Securities.list_by_issuer lib id) s
    ok (some (reconstitute_with row.inner (map (λ r. r.inner.content) rows)))

  abbrev pub list_in_mode :
      LoadMode
      → (Tables → Result (List (SecurityRow Time)) SqlError)
      → List (IssuerRow Time)
      → Session Tables World
      → Result (List (Versioned (Issuer Time))) SqlError
  list_in_mode lazy companion rows s = ok (map reconstitute_lazy rows)
  list_in_mode eager companion rows s = do
    securities ← select host 1 companion s
    ok (hydrate_rows rows securities)

  unfoldable pub find_by_id :
      IssuerId
      → LoadMode
      → Session Tables World
      → Result (Option (Versioned (Issuer Time))) StorageFault
  find_by_id id mode s =
      map_err backend
        (select host 0 (Queries.find_by_id lib id) s >>= λ row. find_in_mode id mode row s)

  unfoldable pub list_all :
      LoadMode → Session Tables World → Result (List (Versioned (Issuer Time))) StorageFault
  list_all mode s = map_err backend (
      select host 0 (Queries.list_all lib) s >>= λ rows.
      list_in_mode mode (securities_for_all_issuers lib) rows s)

  unfoldable pub list_paged :
      Option IssuerId
      → ℕ
      → LoadMode
      → Session Tables World
      → Result (List (Versioned (Issuer Time))) StorageFault
  list_paged after limit mode s = map_err backend (
      select host 0 (Queries.list_paged lib after limit) s >>= λ rows.
      list_in_mode mode (securities_for_issuer_page lib after limit) rows s)

  unfoldable pub sqlite_issuer_repository :
      IssuerRepository (Session Tables World) StorageFault Time
  sqlite_issuer_repository = record {
    find_by_id = find_by_id;
    list_all = list_all;
    list_paged = list_paged;
    exists = λ id s. map_err backend (select host 0 (Queries.exists id) s);
    exists_by_cnpj = λ cnpj s. map_err backend (select host 0 (Queries.exists_by_cnpj cnpj) s);
    exists_by_lei = λ lei s. map_err backend (select host 0 (Queries.exists_by_lei lei) s);
    insert = λ issuer. retrying (discard (execute host (Queries.insert lib issuer)));
    apply_patch = λ id expected_version patch. retrying (
        guarded host (Queries.apply_patch id expected_version patch) (version_sql issuer_table id)
          expected_version);
    update = λ issuer expected_version. retrying (
        guarded host (Queries.update issuer expected_version) (version_sql issuer_table issuer.id)
          expected_version);
    delete = λ id expected_version. retrying (
        guarded host (Queries.delete id expected_version) (version_sql issuer_table id)
          expected_version);
  }
