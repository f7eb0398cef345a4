-- ===== src/Sqlite/Table/Accepted.antt =====
-- What a statement that is accepted did, and which constraints it has passed.
use valqeron.Base.{
  ℕ, ◌≡◌, ◌≢◌, inl, inr, sym, Bool, true, not, ◌||◌, ◌==◌, ==_iff, List, [], ◌∷◌, all, All,
  All-map_imp, Bool-cases, ok,
}
use valqeron.Domain.Steps.{any_of, All-any_of}
use valqeron.Sqlite.Sql.{update_where, delete_where}
use valqeron.Sqlite.Table.{
  Table, has_id, guard, others, insert_into, update_guarded, delete_guarded,
}
use valqeron.Sqlite.Table.Keeping.{all-All}

module _ {T R : Type 0} (table : Table T R) where
  pub record Inserted (r : R) (t t' : T) : Type 0 where
    pub after : t' ≡ table.put (r ∷ table.rows t) t
    pub fresh : All (λ o. table.id_of r ≢ table.id_of o) (table.rows t)
    pub admitted : table.admits t r (table.rows t) ≡ true

  pub record Updated (id version : ℕ) (change : R → R) (t t' : T) : Type 0 where
    pub after : t' ≡ table.put (update_where (guard table id version) change (table.rows t)) t
    pub admitted :
        All
          (λ r.
            guard table id version r ≡ true
            → table.admits t (change r) (others table id (table.rows t)) ≡ true)
          (table.rows t)

  pub record Deleted (id version : ℕ) (t t' : T) : Type 0 where
    pub after : t' ≡ table.put (delete_where (guard table id version) (table.rows t)) t
    pub released :
        All (λ r. guard table id version r ≡ true → table.released t r ≡ true) (table.rows t)

  pub insert_into-Inserted :
      (r : R) (t t' : T) (n : ℕ) → insert_into table r t ≡ ok (n, t') → Inserted r t t'
  unfolding insert_into
  insert_into-Inserted r t t' n e =
      elim (Bool-cases (any_of (has_id table (table.id_of r)) (table.rows t))) [
        | inl y ↦ absurd (cc (rw y at e))
        | inr free ↦ elim (Bool-cases (table.admits t r (table.rows t))) [
          | inr n ↦ absurd (cc (rw (free, n) at e))
          | inl admitted ↦ record {
            after = cc (rw (free, admitted) at e);
            fresh =
                All-any_of (has_id table (table.id_of r)) (λ o. table.id_of r ≡ table.id_of o)
                  (λ o same. (==_iff (table.id_of o) (table.id_of r)).1 (sym same)) (table.rows t)
                  free;
            admitted = admitted;
          }
        ]
      ]

  -- `!guard || test` for every row.
  guarded_test :
      (id version : ℕ) (test : R → Bool) (rows : List R)
      → all (λ r. not (guard table id version r) || test r) rows ≡ true
      → All (λ r. guard table id version r ≡ true → test r ≡ true) rows
  guarded_test id version test rows h =
      All-map_imp _ _ (λ r k g. cc (rw g at k)) rows
        (all-All (λ r. not (guard table id version r) || test r) rows h)

  pub update_guarded-Updated :
      (id version : ℕ) (change : R → R) (t t' : T) (n : ℕ)
      → update_guarded table id version change t ≡ ok (n, t')
      → Updated id version change t t'
  unfolding update_guarded
  update_guarded-Updated id version change t t' n e =
      elim (Bool-cases (
        all
          (λ r.
            not (guard table id version r)
            || table.admits t (change r) (others table id (table.rows t)))
          (table.rows t))) [
            | inr refused ↦ absurd (cc (rw refused at e))
            | inl passed ↦ record {
              after = cc (rw passed at e);
              admitted =
                  guarded_test id version
                    (λ r. table.admits t (change r) (others table id (table.rows t))) (table.rows t)
                    passed;
            }
          ]

  pub delete_guarded-Deleted :
      (id version : ℕ) (t t' : T) (n : ℕ)
      → delete_guarded table id version t ≡ ok (n, t')
      → Deleted id version t t'
  unfolding delete_guarded
  delete_guarded-Deleted id version t t' n e =
      elim (Bool-cases
        (all (λ r. not (guard table id version r) || table.released t r) (table.rows t))) [
          | inr refused ↦ absurd (cc (rw refused at e))
          | inl passed ↦ record {
            after = cc (rw passed at e);
            released = guarded_test id version (table.released t) (table.rows t) passed;
          }
        ]

  -- What holds of the rows of other ids, from what holds of those that are left without the id.
  pub others-All :
      (P : R → Type 0) (id : ℕ) (rows : List R)
      → All P (others table id rows)
      → All (λ o. table.id_of o ≢ id → P o) rows
  others-All P id [] h = tt
  others-All P id (x ∷ rows) h = elim (Bool-cases (table.id_of x == id)) [
    | inl y ↦
        (λ ne. absurd (ne ((==_iff (table.id_of x) id).0 y)), others-All P id rows (rw y at h))
    | inr n ↦ let k = rw n at h in (λ _. k.0, others-All P id rows k.1)
  ]
