-- ===== src/Sqlite/Securities/Faithful.antt =====
-- The repository of securities over SQLite keeps the promises that registration relies on.
use valqeron.Base.{refl, ap, All-map_imp}
use valqeron.Domain.Security.Register.{SecurityView, IsFaithful}
use valqeron.Identifiers.Isin.{Isin}
use valqeron.Sqlite.Columns.{Library, map_option}
use valqeron.Sqlite.Schema.{SecurityRecord, Tables, security_table}
use valqeron.Sqlite.Securities.Queries as Queries
use valqeron.Sqlite.Securities.Repository.{sqlite_security_repository}
use valqeron.Sqlite.Securities.Rows.{inserted_row}
use valqeron.Sqlite.Session.{Host, Session, select}
use valqeron.Sqlite.Table.Inserting.{
  retrying-inserted, retrying-not_inserted, lookup-free, lookup-taken, Any-map_imp, made-some,
  made-text,
}
use valqeron.Text.{Text}

abbrev isin_of : Text → Isin
isin_of t = record { bytes = t }

module _ {Time World : Type 0} (lib : Library Time) (host : Host World) where
  -- The rows of the table, their key, and the row that a security is inserted as.
  abbrev pub security_rows : SecurityView (Session Tables World) SecurityRecord Time
  security_rows = record {
    items = λ s. s.tables.security;
    isin_of = λ r. map_option isin_of r.isin;
    entered = inserted_row lib;
  }

  -- Whatever the engine refuses, a lookup of the repository over SQLite that answers says whether a
  -- row of the table has the ISIN, an insertion that succeeds adds the row of the security, with its
  -- ISIN, once, and one that fails changes no row.
  pub sqlite_security_repository-IsFaithful :
      IsFaithful (sqlite_security_repository lib host) security_rows
  unfolding sqlite_security_repository Queries.exists_by_isin Queries.insert select inserted_row
  sqlite_security_repository-IsFaithful = record {
    free = λ isin s h.
        All-map_imp _ _ (λ r free e. free (made-some isin_of (λ k. k.bytes) (λ t. refl) r.isin e))
          s.tables.security
          (lookup-free (λ r. r.isin) (host.refuses s.world 0) isin.bytes s.tables.security h);
    taken = λ isin s h.
        Any-map_imp _ _ (λ r e. ap (map_option isin_of) e) s.tables.security
          (lookup-taken (λ r. r.isin) (host.refuses s.world 0) isin.bytes s.tables.security h);
    entered-isin = λ security. made-text isin_of (λ k. k.bytes) (λ k. refl) security.isin;
    inserted = λ security s worked.
        ap (λ t. t.security)
          (retrying-inserted security_table host (inserted_row lib security) s worked);
    not_inserted = λ security s failed.
        ap (λ t. t.security)
          (retrying-not_inserted security_table host (inserted_row lib security) s failed);
  }
