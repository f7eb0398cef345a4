-- ===== src/Sqlite/Securities/Versions.antt =====
-- The guarded writes of the security repository, on every branch.
use valqeron.Base.{ℕ, refl, none, some}
use valqeron.Domain.Ids.{SecurityId}
use valqeron.Domain.Security.Patch.{SecurityPatch}
use valqeron.Domain.Security.Service.{SecurityRepository}
use valqeron.Domain.Security.Types.{Security}
use valqeron.Sqlite.Columns.{Library}
use valqeron.Sqlite.Securities.Changes.{
  IsPatched, IsReplaced, patched_row-IsPatched, updated_row-IsReplaced,
}
use valqeron.Sqlite.Securities.Queries as Queries
use valqeron.Sqlite.Securities.Queries.{patched_row, updated_row}
use valqeron.Sqlite.Securities.Repository.{sqlite_security_repository}
use valqeron.Sqlite.Schema.{Tables, security_table}
use valqeron.Sqlite.Session.{Host, Session}
use valqeron.Sqlite.Sql.{StorageFault}
use valqeron.Sqlite.Table.{IsTable, HasDistinctIds}
use valqeron.Sqlite.Table.Guarded.{retrying-GuardedOutcome}
use valqeron.Sqlite.Table.Outcomes.{
  GuardedOutcome, update_guarded-IsGuarded, delete_guarded-IsGuarded,
}
use valqeron.Sqlite.Table.Updates.{ChangeOutcome, GuardedOutcome-ChangeOutcome}

security_table-IsTable : IsTable security_table
security_table-IsTable = record { rows-put = λ rows t. refl; put-rows = λ t. refl }

module _ {Time World : Type 0} (lib : Library Time) (host : Host World) where
  abbrev repository : SecurityRepository (Session Tables World) StorageFault Time
  repository = sqlite_security_repository lib host

  -- A patch takes place on the row that has the id and the expected version, which then has the
  -- fields that are set, every other column as it was, and the next version, and on no other row; or
  -- nothing changes, because the row has another version, which is reported, because there is none,
  -- or for a fault. No id is there twice before.
  pub security-apply_patch_outcome :
      (id : SecurityId) (expected : ℕ) (patch : SecurityPatch) (s : Session Tables World)
      → HasDistinctIds security_table s.tables
      → ChangeOutcome security_table id expected
          (IsPatched patch)
          s.tables
          (repository.apply_patch id expected patch s).0
          (repository.apply_patch id expected patch s).1.tables
  unfolding sqlite_security_repository Queries.apply_patch
  security-apply_patch_outcome id expected patch s d =
      GuardedOutcome-ChangeOutcome security_table id expected (patched_row patch) (IsPatched patch)
        (patched_row-IsPatched patch) s.tables _ _
        (retrying-GuardedOutcome security_table host id expected (λ r. some (patched_row patch r))
          (Queries.apply_patch id expected patch) s
          (update_guarded-IsGuarded security_table security_table-IsTable id expected
            (patched_row patch) (λ r. (patched_row-IsPatched patch r).id))
          d)

  -- A replacement takes place on the row that has the id and the expected version, which then has the
  -- fields of the security but for its issuer, its kind, its underlying security and its time of
  -- creation, which stay, and the next version, and on no other row; or nothing changes, because the
  -- row has another version, which is reported, because there is none, or for a fault. No id is there
  -- twice before.
  pub security-update_outcome :
      (security : Security Time) (expected : ℕ) (s : Session Tables World)
      → HasDistinctIds security_table s.tables
      → ChangeOutcome security_table security.id expected
          (IsReplaced security)
          s.tables
          (repository.update security expected s).0
          (repository.update security expected s).1.tables
  unfolding sqlite_security_repository Queries.update
  security-update_outcome security expected s d =
      GuardedOutcome-ChangeOutcome security_table security.id expected (updated_row security)
        (IsReplaced security) (updated_row-IsReplaced security) s.tables _ _
        (retrying-GuardedOutcome security_table host security.id expected
          (λ r. some (updated_row security r)) (Queries.update security expected) s
          (update_guarded-IsGuarded security_table security_table-IsTable security.id expected
            (updated_row security) (λ r. (updated_row-IsReplaced security r).id))
          d)

  -- A deletion takes away the row that has the id and the expected version and no other row, or
  -- nothing changes, because the row has another version, which is reported, because there is none,
  -- or for a fault.
  pub security-delete_outcome :
      (id : SecurityId) (expected : ℕ) (s : Session Tables World)
      → HasDistinctIds security_table s.tables
      → GuardedOutcome security_table id expected
          (λ _. none)
          s.tables
          (repository.delete id expected s).0
          (repository.delete id expected s).1.tables
  unfolding sqlite_security_repository Queries.delete
  security-delete_outcome id expected s d =
      retrying-GuardedOutcome security_table host id expected (λ _. none)
        (Queries.delete id expected) s
        (delete_guarded-IsGuarded security_table security_table-IsTable id expected) d
