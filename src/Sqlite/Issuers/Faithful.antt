-- ===== src/Sqlite/Issuers/Faithful.antt =====
-- The repository of issuers over SQLite keeps the promises that registration relies on.
use valqeron.Base.{refl, ap, All-map_imp}
use valqeron.Domain.Issuer.Register.{IssuerView, IsFaithful}
use valqeron.Identifiers.Cnpj.{Cnpj}
use valqeron.Identifiers.Lei.{Lei}
use valqeron.Sqlite.Columns.{Library, map_option}
use valqeron.Sqlite.Issuers.Queries as Queries
use valqeron.Sqlite.Issuers.Repository.{sqlite_issuer_repository}
use valqeron.Sqlite.Issuers.Rows.{inserted_row}
use valqeron.Sqlite.Schema.{IssuerRecord, Tables, issuer_table}
use valqeron.Sqlite.Session.{Host, Session, select}
use valqeron.Sqlite.Table.Inserting.{
  retrying-inserted, retrying-not_inserted, lookup-free, lookup-taken, Any-map_imp, made-some,
  made-text,
}
use valqeron.Text.{Text}

abbrev cnpj_of : Text → Cnpj
cnpj_of t = record { bytes = t }

abbrev lei_of : Text → Lei
lei_of t = record { bytes = t }

module _ {Time World : Type 0} (lib : Library Time) (host : Host World) where
  -- The rows of the table, their keys, and the row that an issuer is inserted as.
  abbrev pub issuer_rows : IssuerView (Session Tables World) IssuerRecord Time
  issuer_rows = record {
    items = λ s. s.tables.issuer;
    cnpj_of = λ r. map_option cnpj_of r.cnpj;
    lei_of = λ r. map_option lei_of r.lei;
    entered = inserted_row lib;
  }

  -- Whatever the engine refuses, the repository over SQLite keeps the promises that registration
  -- relies on: a lookup that answers says whether a row of the table has the CNPJ or the LEI, an
  -- insertion that succeeds adds the row of the issuer, with its CNPJ and LEI, once, and one that
  -- fails changes no row.
  pub sqlite_issuer_repository-IsFaithful :
      IsFaithful (sqlite_issuer_repository lib host) issuer_rows
  unfolding sqlite_issuer_repository Queries.exists_by_cnpj Queries.exists_by_lei Queries.insert
      select inserted_row
  sqlite_issuer_repository-IsFaithful = record {
    cnpj_free = λ cnpj s h.
        All-map_imp _ _ (λ r free e. free (made-some cnpj_of (λ k. k.bytes) (λ t. refl) r.cnpj e))
          s.tables.issuer
          (lookup-free (λ r. r.cnpj) (host.refuses s.world 0) cnpj.bytes s.tables.issuer h);
    cnpj_taken = λ cnpj s h.
        Any-map_imp _ _ (λ r e. ap (map_option cnpj_of) e) s.tables.issuer
          (lookup-taken (λ r. r.cnpj) (host.refuses s.world 0) cnpj.bytes s.tables.issuer h);
    lei_free = λ lei s h.
        All-map_imp _ _ (λ r free e. free (made-some lei_of (λ k. k.bytes) (λ t. refl) r.lei e))
          s.tables.issuer
          (lookup-free (λ r. r.lei) (host.refuses s.world 0) lei.bytes s.tables.issuer h);
    lei_taken = λ lei s h.
        Any-map_imp _ _ (λ r e. ap (map_option lei_of) e) s.tables.issuer
          (lookup-taken (λ r. r.lei) (host.refuses s.world 0) lei.bytes s.tables.issuer h);
    entered-cnpj = λ issuer. made-text cnpj_of (λ k. k.bytes) (λ k. refl) issuer.cnpj;
    entered-lei = λ issuer. made-text lei_of (λ k. k.bytes) (λ k. refl) issuer.lei;
    inserted = λ issuer s worked.
        ap (λ t. t.issuer) (retrying-inserted issuer_table host (inserted_row lib issuer) s worked);
    not_inserted = λ issuer s failed.
        ap (λ t. t.issuer)
          (retrying-not_inserted issuer_table host (inserted_row lib issuer) s failed);
  }
