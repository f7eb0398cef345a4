-- ===== src/Sqlite/Issuers/Versions.antt =====
-- The guarded writes of the issuer repository, on every branch.
use valqeron.Base.{ℕ, refl, none, some}
use valqeron.Domain.Ids.{IssuerId}
use valqeron.Domain.Issuer.Patch.{IssuerPatch}
use valqeron.Domain.Issuer.Service.{IssuerRepository}
use valqeron.Domain.Issuer.Types.{Issuer}
use valqeron.Sqlite.Columns.{Library}
use valqeron.Sqlite.Issuers.Changes.{
  IsPatched, IsReplaced, patched_row-IsPatched, updated_row-IsReplaced,
}
use valqeron.Sqlite.Issuers.Queries as Queries
use valqeron.Sqlite.Issuers.Queries.{patched_row, updated_row}
use valqeron.Sqlite.Issuers.Repository.{sqlite_issuer_repository}
use valqeron.Sqlite.Schema.{Tables, issuer_table}
use valqeron.Sqlite.Session.{Host, Session}
use valqeron.Sqlite.Sql.{StorageFault}
use valqeron.Sqlite.Table.{IsTable, HasDistinctIds}
use valqeron.Sqlite.Table.Guarded.{retrying-GuardedOutcome}
use valqeron.Sqlite.Table.Outcomes.{
  GuardedOutcome, update_guarded-IsGuarded, delete_guarded-IsGuarded,
}
use valqeron.Sqlite.Table.Updates.{ChangeOutcome, GuardedOutcome-ChangeOutcome}

issuer_table-IsTable : IsTable issuer_table
issuer_table-IsTable = record { rows-put = λ rows t. refl; put-rows = λ t. refl }

module _ {Time World : Type 0} (lib : Library Time) (host : Host World) where
  abbrev repository : IssuerRepository (Session Tables World) StorageFault Time
  repository = sqlite_issuer_repository lib host

  -- A patch takes place on the row that has the id and the expected version, which then has the
  -- fields that are set, every other column as it was, and the next version, and on no other row; or
  -- nothing changes, because the row has another version, which is reported, because there is none,
  -- or for a fault. No id is there twice before.
  pub issuer-apply_patch_outcome :
      (id : IssuerId) (expected : ℕ) (patch : IssuerPatch) (s : Session Tables World)
      → HasDistinctIds issuer_table s.tables
      → ChangeOutcome issuer_table id expected
          (IsPatched patch)
          s.tables
          (repository.apply_patch id expected patch s).0
          (repository.apply_patch id expected patch s).1.tables
  unfolding sqlite_issuer_repository Queries.apply_patch
  issuer-apply_patch_outcome id expected patch s d =
      GuardedOutcome-ChangeOutcome issuer_table id expected (patched_row patch) (IsPatched patch)
        (patched_row-IsPatched patch) s.tables _ _
        (retrying-GuardedOutcome issuer_table host id expected (λ r. some (patched_row patch r))
          (Queries.apply_patch id expected patch) s
          (update_guarded-IsGuarded issuer_table issuer_table-IsTable id expected
            (patched_row patch) (λ r. (patched_row-IsPatched patch r).id))
          d)

  -- A replacement takes place on the row that has the id and the expected version, which then has the
  -- fields of the issuer but for its time of creation, and the next version, and on no other row; or
  -- nothing changes, because the row has another version, which is reported, because there is none,
  -- or for a fault.
  pub issuer-update_outcome :
      (issuer : Issuer Time) (expected : ℕ) (s : Session Tables World)
      → HasDistinctIds issuer_table s.tables
      → ChangeOutcome issuer_table issuer.id expected
          (IsReplaced issuer)
          s.tables
          (repository.update issuer expected s).0
          (repository.update issuer expected s).1.tables
  unfolding sqlite_issuer_repository Queries.update
  issuer-update_outcome issuer expected s d =
      GuardedOutcome-ChangeOutcome issuer_table issuer.id expected (updated_row issuer)
        (IsReplaced issuer) (updated_row-IsReplaced issuer) s.tables _ _
        (retrying-GuardedOutcome issuer_table host issuer.id expected
          (λ r. some (updated_row issuer r)) (Queries.update issuer expected) s
          (update_guarded-IsGuarded issuer_table issuer_table-IsTable issuer.id expected
            (updated_row issuer) (λ r. (updated_row-IsReplaced issuer r).id))
          d)

  -- A deletion takes away the row that has the id and the expected version and no other row, or
  -- nothing changes, because the row has another version, which is reported, because there is none,
  -- or for a fault.
  pub issuer-delete_outcome :
      (id : IssuerId) (expected : ℕ) (s : Session Tables World)
      → HasDistinctIds issuer_table s.tables
      → GuardedOutcome issuer_table id expected
          (λ _. none)
          s.tables
          (repository.delete id expected s).0
          (repository.delete id expected s).1.tables
  unfolding sqlite_issuer_repository Queries.delete
  issuer-delete_outcome id expected s d =
      retrying-GuardedOutcome issuer_table host id expected (λ _. none) (Queries.delete id expected)
        s (delete_guarded-IsGuarded issuer_table issuer_table-IsTable id expected) d
