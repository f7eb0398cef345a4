-- ===== src/Examples/Writes.antt =====
-- Calls of the repositories over SQLite at a database with one issuer and one security.
use valqeron.Base.{ℕ, zero, suc, ◌<◌, ◌≡◌, refl, [], ◌∷◌, none, some, ok, arith, map_err}
use valqeron.Domain.Common.{applied, lazy}
use valqeron.Domain.Issuer.Build.{parse-brazil, brazil_country_code}
use valqeron.Domain.Issuer.Patch.{IssuerPatch, empty_patch}
use valqeron.Domain.Labels.{IssuerStatus}
use valqeron.Examples.Cnpjs.{company_text, company_parses}
use valqeron.Examples.Databases.{
  lib, in_millis, lib-IsDocumented, host, acme, tables, session, tables-IsConsistent,
}
use valqeron.Examples.Registrations.{vale_share, vale_receipt}
use valqeron.Sqlite.Histories.{
  insert_issuer, patch_issuer, delete_issuer, insert_security, perform_all,
  perform_all-IsConsistent,
}
use valqeron.Sqlite.Issuers.Queries as IssuerQueries
use valqeron.Sqlite.Issuers.Changes as IssuerChanges
use valqeron.Sqlite.Issuers.Repository.{sqlite_issuer_repository}
use valqeron.Sqlite.Issuers.RoundTrip.{IsSound, issuer-insert-find_by_id}
use valqeron.Sqlite.Issuers.Stale.{IsStale, apply_patch-IsStale}
use valqeron.Sqlite.Issuers.Versions.{issuer-apply_patch_outcome, issuer-delete_outcome}
use valqeron.Sqlite.Issuers.Rows as IssuerRows
use valqeron.Sqlite.Schema.{
  Tables, issuer_table, security_table, issuer_checks, issuer_admits, issuer_released,
}
use valqeron.Sqlite.Schema.Consistent.{IsConsistent}
use valqeron.Sqlite.Securities.Changes as SecurityChanges
use valqeron.Sqlite.Securities.Repository.{sqlite_security_repository}
use valqeron.Sqlite.Securities.Versions.{security-update_outcome}
use valqeron.Sqlite.Session.{Session, execute, guarded, retrying}
use valqeron.Sqlite.Retry.{retrying_gets_through}
use valqeron.Sqlite.Securities.Rows as SecurityRows
use valqeron.Sqlite.Sql.{is_busy_or_locked, backend}
use valqeron.Sqlite.Support.{
  with_busy_retry, busy_loop, after_call, write_outcome, after_calls, IsBusy,
}
use valqeron.Sqlite.Table.{insert_into, update_guarded, delete_guarded, version_sql}
use valqeron.Sqlite.Table.Outcomes.{GuardedOutcome}
use valqeron.Sqlite.Table.Updates.{ChangeOutcome}
use valqeron.Text.{codes, text_eq}

-- The session after a call that was refused.
abbrev busy_once : Session Tables ℕ
busy_once = record session { world = 1 }

abbrev renamed : IssuerPatch
renamed = record empty_patch { name = some (codes "Vale S.A.") }

abbrev retired : IssuerPatch
retired = record empty_patch { status = some IssuerStatus.retired }

perform_all-IsConsistent_example :
    IsConsistent
      (perform_all lib host
        (insert_issuer acme
          ∷ patch_issuer 1 1 renamed
          ∷ delete_issuer 1 2
          ∷ insert_security vale_receipt
          ∷ [])
        session).tables
perform_all-IsConsistent_example =
    perform_all-IsConsistent lib host
      (insert_issuer acme
        ∷ patch_issuer 1 1 renamed
        ∷ delete_issuer 1 2
        ∷ insert_security vale_receipt
        ∷ [])
      session tables-IsConsistent

issuer-apply_patch_outcome_example :
    ChangeOutcome issuer_table 1 1
      (IssuerChanges.IsPatched renamed)
      tables
      ((sqlite_issuer_repository lib host).apply_patch 1 1 renamed session).0
      ((sqlite_issuer_repository lib host).apply_patch 1 1 renamed session).1.tables
issuer-apply_patch_outcome_example =
    issuer-apply_patch_outcome lib host 1 1 renamed session tables-IsConsistent.issuer_ids

issuer-delete_outcome_example :
    GuardedOutcome issuer_table 1 1
      (λ _. none)
      tables
      ((sqlite_issuer_repository lib host).delete 1 1 session).0
      ((sqlite_issuer_repository lib host).delete 1 1 session).1.tables
issuer-delete_outcome_example =
    issuer-delete_outcome lib host 1 1 session tables-IsConsistent.issuer_ids

renamed_once : ((sqlite_issuer_repository lib host).apply_patch 1 1 renamed session).0 ≡ ok applied
unfolding sqlite_issuer_repository IssuerQueries.apply_patch IssuerQueries.patched_row guarded
    execute retrying with_busy_retry busy_loop after_call update_guarded tables issuer_admits
    issuer_checks write_outcome text_eq IssuerRows.inserted_row
renamed_once = refl

apply_patch-IsStale_example :
    IsStale 1
      ((sqlite_issuer_repository lib host).apply_patch 1 1 renamed session).1.tables
      ((sqlite_issuer_repository lib host).apply_patch 1 1 retired
        ((sqlite_issuer_repository lib host).apply_patch 1 1 renamed session).1).0
      ((sqlite_issuer_repository lib host).apply_patch 1 1 retired
        ((sqlite_issuer_repository lib host).apply_patch 1 1 renamed session).1).1.tables
apply_patch-IsStale_example =
    apply_patch-IsStale lib host 1 1 renamed retired session tables-IsConsistent renamed_once

security-update_outcome_example :
    ChangeOutcome security_table 10 1
      (SecurityChanges.IsReplaced vale_share)
      tables
      ((sqlite_security_repository lib host).update vale_share 1 session).0
      ((sqlite_security_repository lib host).update vale_share 1 session).1.tables
security-update_outcome_example =
    security-update_outcome lib host vale_share 1 session tables-IsConsistent.security_ids

acme_inserted : ((sqlite_issuer_repository lib host).insert acme session).0 ≡ ok tt
unfolding sqlite_issuer_repository IssuerQueries.insert execute retrying with_busy_retry busy_loop
    after_call insert_into tables issuer_admits issuer_checks text_eq IssuerRows.inserted_row
acme_inserted = refl

acme_readable :
    host.refuses ((sqlite_issuer_repository lib host).insert acme session).1.world 0 ≡ none
unfolding sqlite_issuer_repository IssuerQueries.insert execute retrying with_busy_retry busy_loop
    after_call insert_into tables issuer_admits issuer_checks text_eq IssuerRows.inserted_row
acme_readable = refl

pub acme-IsSound : IsSound acme
acme-IsSound = record {
  name = tt;
  cnpj = (company_text, company_parses);
  lei = tt;
  country_code = (brazil_country_code, parse-brazil);
}

issuer-insert-find_by_id_example :
    (sqlite_issuer_repository lib host).find_by_id 2 lazy
      ((sqlite_issuer_repository lib host).insert acme session).1
    ≡ ok (some (record { content = record acme { created_at = 1700000000000 }; version = 1 }))
issuer-insert-find_by_id_example =
    issuer-insert-find_by_id lib in_millis host acme session lib-IsDocumented acme-IsSound
      acme_inserted acme_readable

retrying_gets_through_example :
    retrying (guarded host (IssuerQueries.delete 1 1) (version_sql issuer_table 1) 1) session ≡ (
      map_err backend
          (guarded host (IssuerQueries.delete 1 1) (version_sql issuer_table 1) 1 busy_once).0,
      (guarded host (IssuerQueries.delete 1 1) (version_sql issuer_table 1) 1 busy_once).1,
    )
unfolding guarded execute after_calls tables IssuerRows.inserted_row delete_guarded
    IssuerQueries.delete issuer_released write_outcome SecurityRows.inserted_row
retrying_gets_through_example =
    retrying_gets_through (guarded host (IssuerQueries.delete 1 1) (version_sql issuer_table 1) 1) 1
      session (omega arith) (λ j lt. first j lt) (λ e. cc e)
  where
    first :
        (j : ℕ)
        → j < 1
        → IsBusy is_busy_or_locked
            (guarded host (IssuerQueries.delete 1 1) (version_sql issuer_table 1) 1)
            (guarded host (IssuerQueries.delete 1 1) (version_sql issuer_table 1) 1 (
              after_calls is_busy_or_locked
                (guarded host (IssuerQueries.delete 1 1) (version_sql issuer_table 1) 1)
                j
                session)).0
    first zero lt = refl
    first (suc j) lt = absurd (omega arith)
