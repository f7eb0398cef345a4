-- ===== src/Sqlite/Table/Outcomes.antt =====
-- What a retried, guarded write of crates/infrastructure/src/sqlite/repositories comes to on every
-- branch.
use valqeron.Base.{
  ℕ, ◌≡◌, ◌≢◌, inl, inr, refl, ap, ◌∙◌, ltb, u32_max, List, Option, none, some, Result, ok, err,
  map_err, Bool-cases, arith,
}
use valqeron.Domain.Common.{WriteOutcome, applied, version_mismatch, missing}
use valqeron.Sqlite.Session.{unless_refused}
use valqeron.Sqlite.Sql.{SqlError, StorageFault, backend, update_where, delete_where, count_where}
use valqeron.Sqlite.Support.{write_outcome}
use valqeron.Sqlite.Table.{
  Table, IsTable, guard, row_of, update_guarded, delete_guarded, read_version, column_u32,
  HasDistinctIds,
}
use valqeron.Sqlite.Table.Find.{
  find, Distinct, count-none, count-some, update-none, delete-none, find-update, find-update-other,
  find-delete, find-delete-other,
}

module _ {T R : Type 0} (table : Table T R) where
  -- A guarded write of one id: it took place, on the row of the expected version, which is then
  -- `after`, and no other row changed; or nothing changed, because the row has another version,
  -- because there is none, or for a fault.
  abbrev pub GuardedOutcome :
      ℕ → ℕ → (R → Option R) → T → Result WriteOutcome StorageFault → T → Type 0
  GuardedOutcome id expected after t (ok applied) t' =
      (r : R) × (row_of table id t ≡ some r)
      × (table.version_of r ≡ expected)
      × (row_of table id t' ≡ after r)
      × ((other : ℕ) → other ≢ id → row_of table other t' ≡ row_of table other t)
  GuardedOutcome id expected after t (ok (version_mismatch e actual)) t' =
      (t' ≡ t)
      × (e ≡ expected)
      × (actual ≢ expected)
      × (r : R) × (row_of table id t ≡ some r)
      × (table.version_of r ≡ actual)
  GuardedOutcome id expected after t (ok missing) t' = (t' ≡ t) × (row_of table id t ≡ none)
  GuardedOutcome id expected after t (err fault) t' = t' ≡ t

  -- What a guarded statement does, when it is not refused.
  pub record IsGuarded (id expected : ℕ) (after : R → Option R)
      (statement : T → Result (ℕ × T) SqlError) : Type 0 where
    pub hit :
        (t t' : T) (n : ℕ) {r : R}
        → HasDistinctIds table t
        → statement t ≡ ok (n, t')
        → row_of table id t ≡ some r
        → table.version_of r ≡ expected
        → (n ≡ 1)
          × (row_of table id t' ≡ after r)
          × ((other : ℕ) → other ≢ id → row_of table other t' ≡ row_of table other t)
    pub mismatch :
        (t t' : T) (n : ℕ) {r : R}
        → HasDistinctIds table t
        → statement t ≡ ok (n, t')
        → row_of table id t ≡ some r
        → table.version_of r ≢ expected
        → (n ≡ 0) × (t' ≡ t)
    pub miss :
        (t t' : T) (n : ℕ)
        → statement t ≡ ok (n, t')
        → row_of table id t ≡ none
        → (n ≡ 0) × (t' ≡ t)

  update_guarded_inv :
      (id expected : ℕ) (change : R → R) (t t' : T) (n : ℕ)
      → update_guarded table id expected change t ≡ ok (n, t')
      → (n ≡ count_where (guard table id expected) (table.rows t))
        × (t' ≡ table.put (update_where (guard table id expected) change (table.rows t)) t)
  unfolding update_guarded
  update_guarded_inv id expected change t t' n e = ground arith

  delete_guarded_inv :
      (id expected : ℕ) (t t' : T) (n : ℕ)
      → delete_guarded table id expected t ≡ ok (n, t')
      → (n ≡ count_where (guard table id expected) (table.rows t))
        × (t' ≡ table.put (delete_where (guard table id expected) (table.rows t)) t)
  unfolding delete_guarded
  delete_guarded_inv id expected t t' n e = ground arith

  count-other :
      (id expected : ℕ) (rows : List R) {r : R}
      → Distinct table rows
      → find table id rows ≡ some r
      → table.version_of r ≢ expected
      → count_where (guard table id expected) rows ≡ 0
  count-other id expected rows {r} d h ne = ground (arith, count-some table id expected rows d h)

  update-unchanged :
      IsTable table
      → (id expected : ℕ) (change : R → R) (t t' : T) (n : ℕ)
      → update_guarded table id expected change t ≡ ok (n, t')
      → count_where (guard table id expected) (table.rows t) ≡ 0
      → (n ≡ 0) × (t' ≡ t)
  update-unchanged laws id expected change t t' n e z =
      let (c, put) = update_guarded_inv id expected change t t' n e in
      (
        c ∙ z,
        put
            ∙ ap (λ (l : List R). table.put l t)
                (update-none table id expected change (table.rows t) z)
            ∙ laws.put-rows t,
      )

  pub update_guarded-IsGuarded :
      IsTable table
      → (id expected : ℕ) (change : R → R) → ((r : R) → table.id_of (change r) ≡ table.id_of r)
      → IsGuarded id expected (λ r. some (change r)) (update_guarded table id expected change)
  update_guarded-IsGuarded laws id expected change keeps = record {
    hit = λ t t' n {r} d e found v.
        let (c, put) = update_guarded_inv id expected change t t' n e in
        let rows = table.rows t in
        let e' = ap table.rows put ∙ laws.rows-put _ t in
        (
          c ∙ count-some table id expected rows d found ∙ ground (arith, v),
          rw e' (find-update table id expected change rows keeps found v),
          λ other ne. rw e' (find-update-other table id other expected change rows keeps ne),
        );
    mismatch = λ t t' n d e found ne.
        update-unchanged laws id expected change t t' n e
          (count-other id expected (table.rows t) d found ne);
    miss = λ t t' n e none_found.
        update-unchanged laws id expected change t t' n e
          (count-none table id expected (table.rows t) none_found);
  }

  delete-unchanged :
      IsTable table
      → (id expected : ℕ) (t t' : T) (n : ℕ) → delete_guarded table id expected t ≡ ok (n, t')
      → count_where (guard table id expected) (table.rows t) ≡ 0
      → (n ≡ 0) × (t' ≡ t)
  delete-unchanged laws id expected t t' n e z =
      let (c, put) = delete_guarded_inv id expected t t' n e in
      (
        c ∙ z,
        put
            ∙ ap (λ (l : List R). table.put l t) (delete-none table id expected (table.rows t) z)
            ∙ laws.put-rows t,
      )

  pub delete_guarded-IsGuarded :
      IsTable table
      → (id expected : ℕ) → IsGuarded id expected (λ _. none) (delete_guarded table id expected)
  delete_guarded-IsGuarded laws id expected = record {
    hit = λ t t' n {r} d e found v.
        let (c, put) = delete_guarded_inv id expected t t' n e in
        let rows = table.rows t in
        let e' = ap table.rows put ∙ laws.rows-put _ t in
        (
          c ∙ count-some table id expected rows d found ∙ ground (arith, v),
          rw e' (find-delete table id expected rows d found v),
          λ other ne. rw e' (find-delete-other table id other expected rows ne),
        );
    mismatch = λ t t' n d e found ne.
        delete-unchanged laws id expected t t' n e
          (count-other id expected (table.rows t) d found ne);
    miss = λ t t' n e none_found.
        delete-unchanged laws id expected t t' n e
          (count-none table id expected (table.rows t) none_found);
  }

  -- What the version that is read again makes of a call that changed no row.
  pub reread :
      (id expected : ℕ) (after : R → Option R) (t : T) (refused : Option SqlError) (row : Option R)
      → row_of table id t ≡ row
      → ((r : R) → row ≡ some r → table.version_of r ≢ expected)
      → GuardedOutcome id expected after t
          (map_err backend
            (write_outcome (unless_refused refused (read_version table row)) expected))
          t
  unfolding write_outcome column_u32
  reread id expected after t (some e) row found ne = refl
  reread id expected after t none none found ne = (refl, found)
  reread id expected after t none (some r) found ne =
      elim (Bool-cases (ltb u32_max (table.version_of r))) [
        | inl big ↦ rw big refl
        | inr fits ↦ rw fits (refl, refl, ne r refl, r, found, refl)
      ]
