-- ===== src/Sqlite/Table/Guarded.antt =====
-- The retried, guarded writes of crates/infrastructure/src/sqlite/repositories, on every branch.
use valqeron.Base.{
  ℕ, ◌≡◌, ◌≢◌, ◌⊎◌, inl, inr, refl, sym, subst, ◌==◌, ==_iff, Option, none, some, Result, ok, err,
  map_err, Option-cases, arith, Bool-cases,
}
use valqeron.Domain.Common.{WriteOutcome}
use valqeron.Sqlite.Retry.{retrying_once}
use valqeron.Sqlite.Session.{
  Host, Session, execute, guarded, retrying, unless_refused, changed, count_of, tables_after,
}
use valqeron.Sqlite.Sql.{SqlError, StorageFault, backend}
use valqeron.Sqlite.Support.{write_outcome}
use valqeron.Sqlite.Table.{Table, row_of, version_sql, HasDistinctIds}
use valqeron.Sqlite.Table.Outcomes.{GuardedOutcome, IsGuarded, reread}

module _ {T R World : Type 0} (table : Table T R) (host : Host World) where
  version-cases :
      (r : R) (expected : ℕ) → (table.version_of r ≡ expected) ⊎ (table.version_of r ≢ expected)
  version-cases r expected = elim (Bool-cases (table.version_of r == expected)) [
    | inl y ↦ inl ((==_iff (table.version_of r) expected).0 y)
    | inr n ↦ inr (λ e. ground arith)
  ]

  -- A statement that ran, and what the rest of the call makes of it.
  ran :
      (id expected : ℕ) (after : R → Option R) (statement : T → Result (ℕ × T) SqlError) (t t' : T)
      (n : ℕ) (refused : Option SqlError)
      → IsGuarded table id expected after statement
      → HasDistinctIds table t
      → statement t ≡ ok (n, t')
      → GuardedOutcome table id expected after t
          (map_err backend (
            changed
              (ok n)
              (write_outcome (unless_refused refused (version_sql table id t')) expected)))
          t'
  ran id expected after statement t t' n refused g d e = elim (Option-cases (row_of table id t)) [
    | inl nothing ↦
        let (z, same) = g.miss t t' n e nothing in
        rw (z, same)
          (reread table id expected after t refused (row_of table id t) refl
            (λ r found. absurd (cc (nothing, found))))
    | inr (r, found) ↦ elim (version-cases r expected) [
      | inl v ↦ let h = g.hit t t' n d e found v in rw (h.0) (r, found, v, h.1, h.2)
      | inr ne ↦
          let (z, same) = g.mismatch t t' n d e found ne in
          rw (z, same)
            (reread table id expected after t refused (row_of table id t) refl (λ r' found'.
              subst (λ (x : R). table.version_of x ≢ expected) (cc (found, found')) ne))
    ]
  ]

  settled :
      (id expected : ℕ) (after : R → Option R) (statement : T → Result (ℕ × T) SqlError) (t : T)
      (first second : Option SqlError) (r : Result (ℕ × T) SqlError)
      → IsGuarded table id expected after statement
      → HasDistinctIds table t
      → statement t ≡ r
      → GuardedOutcome table id expected after t
          (map_err backend (
            changed (count_of (unless_refused first r)) (
              write_outcome
                (unless_refused second
                  (version_sql table id (tables_after (unless_refused first r) t)))
                expected)))
          (tables_after (unless_refused first r) t)
  settled id expected after statement t (some e) second r g d h = refl
  settled id expected after statement t none second (err e) g d h = refl
  settled id expected after statement t none second (ok (n, t')) g d h =
      ran id expected after statement t t' n second g d h

  guarded_outcome :
      (id expected : ℕ) (after : R → Option R) (statement : T → Result (ℕ × T) SqlError)
      (s : Session T World)
      → IsGuarded table id expected after statement
      → HasDistinctIds table s.tables
      → GuardedOutcome table id expected after s.tables
          (map_err backend (guarded host statement (version_sql table id) expected s).0)
          (guarded host statement (version_sql table id) expected s).1.tables
  unfolding guarded execute
  guarded_outcome id expected after statement s g d =
      settled id expected after statement s.tables (host.refuses s.world 0) (host.refuses s.world 1)
        (statement s.tables) g d refl

  outcome-err :
      (id expected : ℕ) (after : R → Option R) (t t' : T) (r : Result WriteOutcome SqlError)
      {e : SqlError}
      → r ≡ err e
      → GuardedOutcome table id expected after t (map_err backend r) t'
      → t' ≡ t
  outcome-err id expected after t t' (ok w) failed h = cc failed
  outcome-err id expected after t t' (err x) failed h = h

  -- Whatever the engine refuses, a retried and guarded write of an id is made, on the row of the
  -- expected version and on no other one, or it changes nothing and reports the version that the
  -- row has instead, that there is no row, or a fault.
  pub retrying-GuardedOutcome :
      (id expected : ℕ) (after : R → Option R) (statement : T → Result (ℕ × T) SqlError)
      (s : Session T World)
      → IsGuarded table id expected after statement
      → HasDistinctIds table s.tables
      → GuardedOutcome table id expected after s.tables
          (retrying (guarded host statement (version_sql table id) expected) s).0
          (retrying (guarded host statement (version_sql table id) expected) s).1.tables
  retrying-GuardedOutcome id expected after statement s g d =
      let op = guarded host statement (version_sql table id) expected in
      let (s', same, e) =
        retrying_once op (λ s. s.tables) (HasDistinctIds table)
          (λ s e d failed.
            outcome-err id expected after s.tables (op s).1.tables (op s).0 failed
              (guarded_outcome id expected after statement s g d))
          s d in
      subst
        (λ (p : Result WriteOutcome StorageFault × Session T World).
          GuardedOutcome table id expected after s.tables p.0 p.1.tables)
        (sym e)
        (subst
          (λ (t : T).
            GuardedOutcome table id expected after t (map_err backend (op s').0) (op s').1.tables)
          same
          (guarded_outcome id expected after statement s' g
            (subst (HasDistinctIds table) (sym same) d)))
