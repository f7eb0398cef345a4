-- ===== src/Sqlite/Issuers/Stale.antt =====
-- A writer whose version is out of date, at the issuer repository.
use valqeron.Base.{ℕ, ◌+◌, ◌≡◌, sym, ap, ◌∙◌, arith, [], ◌∷◌, some, Result, ok, err}
use valqeron.Domain.Common.{WriteOutcome, applied, version_mismatch, missing}
use valqeron.Domain.Ids.{IssuerId}
use valqeron.Domain.Issuer.Patch.{IssuerPatch}
use valqeron.Domain.Issuer.Service.{IssuerRepository}
use valqeron.Sqlite.Columns.{Library}
use valqeron.Sqlite.Histories.{patch_issuer, perform_all-IsConsistent}
use valqeron.Sqlite.Issuers.Changes.{IsPatched}
use valqeron.Sqlite.Issuers.Repository.{sqlite_issuer_repository}
use valqeron.Sqlite.Issuers.Versions.{issuer-apply_patch_outcome}
use valqeron.Sqlite.Schema.{IssuerRecord, Tables, issuer_table}
use valqeron.Sqlite.Schema.Consistent.{IsConsistent}
use valqeron.Sqlite.Session.{Host, Session}
use valqeron.Sqlite.Sql.{StorageFault}
use valqeron.Sqlite.Table.{row_of}
use valqeron.Sqlite.Table.Updates.{ChangeOutcome}

-- A write that did not take place, because the version is one further on or for a fault.
abbrev pub IsStale : ℕ → Tables → Result WriteOutcome StorageFault → Tables → Type 0
IsStale expected t (ok applied) t' = ⊥
IsStale expected t (ok (version_mismatch e actual)) t' =
    (t' ≡ t) × (e ≡ expected) × (actual ≡ expected + 1)
IsStale expected t (ok missing) t' = ⊥
IsStale expected t (err fault) t' = t' ≡ t

ChangeOutcome-IsStale :
    (id expected : ℕ) (Change : IssuerRecord → IssuerRecord → Type 0) (t : Tables)
    (r : Result WriteOutcome StorageFault) (t' : Tables) {row : IssuerRecord}
    → row_of issuer_table id t ≡ some row
    → row.version ≡ expected + 1
    → ChangeOutcome issuer_table id expected Change t r t'
    → IsStale expected t r t'
ChangeOutcome-IsStale id expected Change t (ok applied) t' {row} found v (r, _, same, e, _, _, _) =
    let s : row ≡ r = cc (found, same) in
    absurd (omega (arith, ap (λ (x : IssuerRecord). x.version) s, e, v))
ChangeOutcome-IsStale id expected Change t (ok (version_mismatch e actual)) t' {row} found v
      (kept, x, ne, r, same, a) =
    let s : row ≡ r = cc (found, same) in
    (kept, x, sym a ∙ sym (ap (λ (x : IssuerRecord). x.version) s) ∙ v)
ChangeOutcome-IsStale id expected Change t (ok missing) t' found v (kept, gone) =
    absurd (cc (found, gone))
ChangeOutcome-IsStale id expected Change t (err fault) t' found v kept = kept

applied-row :
    (id expected : ℕ) (patch : IssuerPatch) (t : Tables) (r : Result WriteOutcome StorageFault)
    (t' : Tables)
    → ChangeOutcome issuer_table id expected (IsPatched patch) t r t'
    → r ≡ ok applied
    → (row : IssuerRecord) × (row_of issuer_table id t' ≡ some row) × (row.version ≡ expected + 1)
applied-row id expected patch t (ok applied) t' (r, row, found, v, after, made, _) e =
    (row, after, made.version ∙ ap (λ n. n + 1) v)
applied-row id expected patch t (ok (version_mismatch x y)) t' h e = cc e
applied-row id expected patch t (ok missing) t' h e = cc e
applied-row id expected patch t (err fault) t' h e = cc e

module _ {Time World : Type 0} (lib : Library Time) (host : Host World) where
  abbrev repository : IssuerRepository (Session Tables World) StorageFault Time
  repository = sqlite_issuer_repository lib host

  -- No update is lost: once a patch has taken place, a second one that was made for the same
  -- version changes nothing, and it is reported as out of date by one version unless there is a
  -- fault.
  pub apply_patch-IsStale :
      (id : IssuerId) (expected : ℕ) (first second : IssuerPatch) (s : Session Tables World)
      → IsConsistent s.tables
      → (repository.apply_patch id expected first s).0 ≡ ok applied
      → IsStale expected
          (repository.apply_patch id expected first s).1.tables
          (repository.apply_patch id expected second
            (repository.apply_patch id expected first s).1).0
          (repository.apply_patch id expected second
            (repository.apply_patch id expected first s).1).1.tables
  apply_patch-IsStale id expected first second s c e =
      let s' = (repository.apply_patch id expected first s).1 in
      let (row, found, v) =
        applied-row id expected first s.tables _ s'.tables
          (issuer-apply_patch_outcome lib host id expected first s c.issuer_ids) e in
      let c' = perform_all-IsConsistent lib host (patch_issuer id expected first ∷ []) s c in
      ChangeOutcome-IsStale id expected (IsPatched second) s'.tables _ _ found v
        (issuer-apply_patch_outcome lib host id expected second s' c'.issuer_ids)
