-- ===== src/Sqlite/Securities/Repository.antt =====
-- `SqliteSecurityRepository` of crates/infrastructure/src/sqlite/repositories/securities.rs.
use valqeron.Base.{List, map, map_err, ◌>>=◌, ok}
use valqeron.Domain.Common.{Versioned}
use valqeron.Domain.Security.Service.{SecurityRepository}
use valqeron.Domain.Security.Types.{Security}
use valqeron.Sqlite.Columns.{Library, map_option}
use valqeron.Sqlite.Schema.{Tables, security_table}
use valqeron.Sqlite.Securities.Queries as Queries
use valqeron.Sqlite.Securities.Rows.{SecurityRow}
use valqeron.Sqlite.Session.{Host, Session, select, execute, guarded, retrying, discard}
use valqeron.Sqlite.Sql.{StorageFault, backend}
use valqeron.Sqlite.Table.{version_sql}

module _ {Time : Type 0} where
  -- `row.into_inner()`
  abbrev pub into_inner : SecurityRow Time → Versioned (Security Time)
  into_inner row = row.inner

  abbrev pub into_inners : List (SecurityRow Time) → List (Versioned (Security Time))
  into_inners rows = map into_inner rows

module _ {Time World : Type 0} (lib : Library Time) (host : Host World) where
  unfoldable pub sqlite_security_repository :
      SecurityRepository (Session Tables World) StorageFault Time
  sqlite_security_repository = record {
    find_by_id = λ id s.
        map_err backend
          (select host 0 (Queries.find_by_id lib id) s >>= λ row. ok (map_option into_inner row));
    find_by_isin = λ isin s.
        map_err backend (
          select host 0 (Queries.find_by_isin lib isin) s >>= λ row.
          ok (map_option into_inner row));
    list_all = λ s.
        map_err backend (select host 0 (Queries.list_all lib) s >>= λ rows. ok (into_inners rows));
    list_by_issuer = λ issuer_id s.
        map_err backend (
          select host 0 (Queries.list_by_issuer lib issuer_id) s >>= λ rows. ok (into_inners rows));
    list_paged = λ after limit s.
        map_err backend
          (select host 0 (Queries.list_paged lib after limit) s >>= λ rows. ok (into_inners rows));
    exists = λ id s. map_err backend (select host 0 (Queries.exists id) s);
    exists_by_isin = λ isin s. map_err backend (select host 0 (Queries.exists_by_isin isin) s);
    insert = λ security. retrying (discard (execute host (Queries.insert lib security)));
    apply_patch = λ id expected_version patch. retrying (
        guarded host (Queries.apply_patch id expected_version patch) (version_sql security_table id)
          expected_version);
    update = λ security expected_version. retrying (
        guarded host (Queries.update security expected_version)
          (version_sql security_table security.id) expected_version);
    delete = λ id expected_version. retrying (
        guarded host (Queries.delete id expected_version) (version_sql security_table id)
          expected_version);
  }
