-- ===== src/Sqlite/Histories.antt =====
-- Histories of calls of the two repositories of crates/infrastructure/src/sqlite/repositories that
-- write: each is retried, and any statement may be refused.
use valqeron.Base.{ℕ, ◌≡◌, refl, List, [], ◌∷◌, Option, none, some, Result, ok, err}
use valqeron.Domain.Ids.{IssuerId, SecurityId}
use valqeron.Domain.Issuer.Patch.{IssuerPatch}
use valqeron.Domain.Issuer.Service.{IssuerRepository}
use valqeron.Domain.Issuer.Types.{Issuer}
use valqeron.Domain.Security.Patch.{SecurityPatch}
use valqeron.Domain.Security.Service.{SecurityRepository}
use valqeron.Domain.Security.Types.{Security}
use valqeron.Sqlite.Columns.{Library}
use valqeron.Sqlite.Issuers.Queries as IssuerQueries
use valqeron.Sqlite.Issuers.Repository.{sqlite_issuer_repository}
use valqeron.Sqlite.Retry.{retrying-keeps}
use valqeron.Sqlite.Schema.{Tables, issuer_table, security_table}
use valqeron.Sqlite.Schema.Consistent.{IsConsistent}
use valqeron.Sqlite.Schema.KeptIssuers.{
  issuer-Inserted-IsConsistent, issuer-Updated-IsConsistent, issuer-Deleted-IsConsistent,
}
use valqeron.Sqlite.Schema.KeptSecurities.{
  security-Inserted-IsConsistent, security-Updated-IsConsistent, security-Deleted-IsConsistent,
}
use valqeron.Sqlite.Securities.Queries as SecurityQueries
use valqeron.Sqlite.Securities.Repository.{sqlite_security_repository}
use valqeron.Sqlite.Session.{
  Host, Session, execute, guarded, discard, retrying, unless_refused, tables_after,
}
use valqeron.Sqlite.Sql.{SqlError, StorageFault}
use valqeron.Sqlite.Table.Accepted.{
  insert_into-Inserted, update_guarded-Updated, delete_guarded-Deleted,
}

-- A call that writes.
pub data Write (Time : Type 0) : Type 0 where
  insert_issuer : Issuer Time → Write Time
  patch_issuer : IssuerId → ℕ → IssuerPatch → Write Time
  update_issuer : Issuer Time → ℕ → Write Time
  delete_issuer : IssuerId → ℕ → Write Time
  insert_security : Security Time → Write Time
  patch_security : SecurityId → ℕ → SecurityPatch → Write Time
  update_security : Security Time → ℕ → Write Time
  delete_security : SecurityId → ℕ → Write Time

module _ {Time World : Type 0} (lib : Library Time) (host : Host World) where
  abbrev issuers : IssuerRepository (Session Tables World) StorageFault Time
  issuers = sqlite_issuer_repository lib host

  abbrev securities : SecurityRepository (Session Tables World) StorageFault Time
  securities = sqlite_security_repository lib host

  -- What a call leaves, whether it succeeds or not.
  abbrev pub perform : Write Time → Session Tables World → Session Tables World
  perform (insert_issuer issuer) s = (issuers.insert issuer s).1
  perform (patch_issuer id expected patch) s = (issuers.apply_patch id expected patch s).1
  perform (update_issuer issuer expected) s = (issuers.update issuer expected s).1
  perform (delete_issuer id expected) s = (issuers.delete id expected s).1
  perform (insert_security security) s = (securities.insert security s).1
  perform (patch_security id expected patch) s = (securities.apply_patch id expected patch s).1
  perform (update_security security expected) s = (securities.update security expected s).1
  perform (delete_security id expected) s = (securities.delete id expected s).1

  abbrev pub perform_all : List (Write Time) → Session Tables World → Session Tables World
  perform_all [] s = s
  perform_all (w ∷ writes) s = perform_all writes (perform w s)

module _ {World : Type 0} (host : Host World) where
  -- A statement that keeps the tables consistent where it is accepted.
  abbrev Keeps : (Tables → Result (ℕ × Tables) SqlError) → Type 0
  Keeps statement =
      (t t' : Tables) (n : ℕ) → statement t ≡ ok (n, t') → IsConsistent t → IsConsistent t'

  after-IsConsistent :
      (statement : Tables → Result (ℕ × Tables) SqlError) (t : Tables) (refused : Option SqlError)
      (r : Result (ℕ × Tables) SqlError)
      → Keeps statement
      → statement t ≡ r
      → IsConsistent t
      → IsConsistent (tables_after (unless_refused refused r) t)
  after-IsConsistent statement t (some e) r keeps h c = c
  after-IsConsistent statement t none (err e) keeps h c = c
  after-IsConsistent statement t none (ok (n, t')) keeps h c = keeps t t' n h c

  execute-IsConsistent :
      (statement : Tables → Result (ℕ × Tables) SqlError)
      → Keeps statement
      → (s : Session Tables World) → IsConsistent s.tables
      → IsConsistent (execute host statement s).1.tables
  unfolding execute
  execute-IsConsistent statement keeps s c =
      after-IsConsistent statement s.tables (host.refuses s.world 0) (statement s.tables) keeps refl
        c

  abbrev Good : Session Tables World → Type 0
  Good s = IsConsistent s.tables

  insert-Good :
      (statement : Tables → Result (ℕ × Tables) SqlError)
      → Keeps statement
      → (s : Session Tables World) → Good s
      → Good (retrying (discard (execute host statement)) s).1
  insert-Good statement keeps =
      retrying-keeps (discard (execute host statement)) Good (execute-IsConsistent statement keeps)

  guarded-Good :
      (statement : Tables → Result (ℕ × Tables) SqlError)
      (version : Tables → Result (Option ℕ) SqlError) (expected : ℕ)
      → Keeps statement
      → (s : Session Tables World) → Good s
      → Good (retrying (guarded host statement version expected) s).1
  unfolding guarded
  guarded-Good statement version expected keeps =
      retrying-keeps (guarded host statement version expected) Good
        (execute-IsConsistent statement keeps)

module _ {Time World : Type 0} (lib : Library Time) (host : Host World) where
  perform-IsConsistent :
      (w : Write Time) (s : Session Tables World)
      → IsConsistent s.tables
      → IsConsistent (perform lib host w s).tables
  unfolding sqlite_issuer_repository sqlite_security_repository IssuerQueries.insert
      IssuerQueries.apply_patch IssuerQueries.update IssuerQueries.delete SecurityQueries.insert
      SecurityQueries.apply_patch SecurityQueries.update SecurityQueries.delete
      IssuerQueries.patched_row IssuerQueries.updated_row SecurityQueries.patched_row
      SecurityQueries.updated_row
  perform-IsConsistent (insert_issuer issuer) = insert-Good host _ (λ t t' n e.
      issuer-Inserted-IsConsistent _ t t' (insert_into-Inserted issuer_table _ t t' n e))
  perform-IsConsistent (patch_issuer id expected patch) =
      guarded-Good host _ _ expected (λ t t' n e.
        issuer-Updated-IsConsistent id expected (IssuerQueries.patched_row patch) t t' (λ r. refl)
          (update_guarded-Updated issuer_table id expected _ t t' n e))
  perform-IsConsistent (update_issuer issuer expected) = guarded-Good host _ _ expected (λ t t' n e.
      issuer-Updated-IsConsistent issuer.id expected (IssuerQueries.updated_row issuer) t t'
        (λ r. refl) (update_guarded-Updated issuer_table issuer.id expected _ t t' n e))
  perform-IsConsistent (delete_issuer id expected) = guarded-Good host _ _ expected (λ t t' n e.
      issuer-Deleted-IsConsistent id expected t t'
        (delete_guarded-Deleted issuer_table id expected t t' n e))
  perform-IsConsistent (insert_security security) = insert-Good host _ (λ t t' n e.
      security-Inserted-IsConsistent _ t t' (insert_into-Inserted security_table _ t t' n e))
  perform-IsConsistent (patch_security id expected patch) =
      guarded-Good host _ _ expected (λ t t' n e.
        security-Updated-IsConsistent id expected (SecurityQueries.patched_row patch) t t'
          (λ r. refl) (update_guarded-Updated security_table id expected _ t t' n e))
  perform-IsConsistent (update_security security expected) =
      guarded-Good host _ _ expected (λ t t' n e.
        security-Updated-IsConsistent security.id expected (SecurityQueries.updated_row security) t
          t' (λ r. refl) (update_guarded-Updated security_table security.id expected _ t t' n e))
  perform-IsConsistent (delete_security id expected) = guarded-Good host _ _ expected (λ t t' n e.
      security-Deleted-IsConsistent id expected t t'
        (delete_guarded-Deleted security_table id expected t t' n e))

  -- After any calls that write, whether they succeed or not and whatever the engine refuses, the
  -- tables are consistent if they were before: keys and unique columns are not there twice, every
  -- row passes its checks, and every reference is to a row that is there.
  pub perform_all-IsConsistent :
      (writes : List (Write Time)) (s : Session Tables World)
      → IsConsistent s.tables
      → IsConsistent (perform_all lib host writes s).tables
  perform_all-IsConsistent [] s c = c
  perform_all-IsConsistent (w ∷ writes) s c =
      perform_all-IsConsistent writes (perform lib host w s) (perform-IsConsistent w s c)
