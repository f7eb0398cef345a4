-- ===== src/Examples/Entries.antt =====
-- Registrations at the repositories over SQLite, in a database with one issuer and one security.
use valqeron.Base.{ℕ}
use valqeron.Domain.Issuer.Register.{
  RegisterOutcome, HasUniqueIds, register_issuer_outcome, register_issuer-HasUniqueIds,
}
use valqeron.Domain.Issuer.Register as Issuers
use valqeron.Domain.Issuer.Service.{register_issuer}
use valqeron.Domain.Security.Register.{SecurityOutcome, register_security_outcome}
use valqeron.Domain.Security.Service.{register_security}
use valqeron.Examples.Databases.{lib, host, acme, tables, session}
use valqeron.Examples.Registrations.{vale_receipt}
use valqeron.Sqlite.Issuers.Faithful.{issuer_rows, sqlite_issuer_repository-IsFaithful}
use valqeron.Sqlite.Issuers.Repository.{sqlite_issuer_repository}
use valqeron.Sqlite.Issuers.Rows as IssuerRows
use valqeron.Sqlite.Schema.{Tables}
use valqeron.Sqlite.Securities.Faithful.{security_rows, sqlite_security_repository-IsFaithful}
use valqeron.Sqlite.Securities.Repository.{sqlite_security_repository}
use valqeron.Sqlite.Session.{Session}

-- The host is free.
abbrev open_session : Session Tables ℕ
open_session = record session { world = 1 }

register_issuer_outcome_example :
    RegisterOutcome
      (issuer_rows lib host)
      acme
      tables.issuer
      (register_issuer (sqlite_issuer_repository lib host) acme open_session).0
      (register_issuer (sqlite_issuer_repository lib host) acme open_session).1.tables.issuer
register_issuer_outcome_example =
    register_issuer_outcome (sqlite_issuer_repository lib host) (issuer_rows lib host)
      (sqlite_issuer_repository-IsFaithful lib host) acme open_session

register_issuer-HasUniqueIds_example :
    HasUniqueIds
      (issuer_rows lib host)
      (register_issuer (sqlite_issuer_repository lib host) acme open_session).1.tables.issuer
unfolding tables IssuerRows.inserted_row
register_issuer-HasUniqueIds_example =
    register_issuer-HasUniqueIds (sqlite_issuer_repository lib host) (issuer_rows lib host)
      (sqlite_issuer_repository-IsFaithful lib host) acme open_session ((tt, tt), (tt, tt))

register_security_outcome_example :
    SecurityOutcome
      (sqlite_security_repository lib host)
      (sqlite_issuer_repository lib host)
      (security_rows lib host)
      vale_receipt
      open_session
      (register_security
        (sqlite_security_repository lib host)
        (sqlite_issuer_repository lib host)
        vale_receipt
        open_session)
register_security_outcome_example =
    register_security_outcome (sqlite_security_repository lib host)
      (sqlite_issuer_repository lib host) (security_rows lib host)
      (sqlite_security_repository-IsFaithful lib host) vale_receipt open_session

sqlite_issuer_repository-IsFaithful_example :
    Issuers.IsFaithful (sqlite_issuer_repository lib host) (issuer_rows lib host)
sqlite_issuer_repository-IsFaithful_example = sqlite_issuer_repository-IsFaithful lib host
