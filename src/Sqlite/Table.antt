-- ===== src/Sqlite/Table.antt =====
-- The statements that the repositories of crates/infrastructure/src/sqlite/repositories share: each
-- writes the row of an id, guarded by its version, or adds a row. What is particular to a table, its
-- constraints among it, is a record. `foreign_keys` is on (crates/infrastructure/src/sqlite/database.rs),
-- and a constraint that does not hold refuses the statement.
pub mod Find
pub mod Outcomes
pub mod Guarded
pub mod Keeping
pub mod Accepted
pub mod Inserting
pub mod Updates
use valqeron.Base.{
  ℕ, ◌≡◌, ◌≢◌, Bool, true, false, not, ◌&&◌, ◌||◌, ◌==◌, ltb, List, [], ◌∷◌, all, Option, none,
  some, Result, ok, err, ◌>>=◌, if◌then◌else◌, u32_max,
}
use valqeron.Domain.Common.{WriteOutcome}
use valqeron.Domain.Steps.{Pairwise, any_of}
use valqeron.Sqlite.Session.{Host, Session, execute, guarded, retrying}
use valqeron.Sqlite.Sql.{
  SqlError, sqlite_failure, constraint_violation, integral_value_out_of_range, StorageFault,
  query_row, update_where, delete_where, count_where,
}

pub record Table (T R : Type 0) : Type 0 where
  pub rows : T → List R
  pub put : List R → T → T
  pub id_of : R → ℕ
  pub version_of : R → ℕ
  -- The CHECK, UNIQUE and REFERENCES constraints of a row beside the others.
  pub admits : T → R → List R → Bool
  -- No row refers to this one.
  pub released : T → R → Bool

-- A column that is read as a `u32`.
unfoldable pub column_u32 : ℕ → ℕ → Result ℕ SqlError
column_u32 column value =
    if ltb u32_max value then err (integral_value_out_of_range column value) else ok value

module _ {T R : Type 0} (table : Table T R) where
  abbrev pub has_id : ℕ → R → Bool
  has_id id r = table.id_of r == id

  -- `WHERE id = ?1 AND version = ?n`
  abbrev pub guard : ℕ → ℕ → R → Bool
  guard id version r = table.id_of r == id && table.version_of r == version

  abbrev pub others : ℕ → List R → List R
  others id rows = delete_where (has_id id) rows

  -- The row of an id.
  abbrev pub row_of : ℕ → T → Option R
  row_of id t = query_row (has_id id) (table.rows t)

  unfoldable pub insert_into : R → T → Result (ℕ × T) SqlError
  insert_into r t =
      if any_of (has_id (table.id_of r)) (table.rows t) || not (table.admits t r (table.rows t))
      then err (sqlite_failure constraint_violation)
      else ok (1, table.put (r ∷ table.rows t) t)

  unfoldable pub update_guarded : ℕ → ℕ → (R → R) → T → Result (ℕ × T) SqlError
  update_guarded id version change t =
      let rows = table.rows t in
      if all (λ r. not (guard id version r) || table.admits t (change r) (others id rows)) rows
      then ok (
        count_where (guard id version) rows,
        table.put (update_where (guard id version) change rows) t,
      )
      else err (sqlite_failure constraint_violation)

  unfoldable pub delete_guarded : ℕ → ℕ → T → Result (ℕ × T) SqlError
  delete_guarded id version t =
      let rows = table.rows t in
      if all (λ r. not (guard id version r) || table.released t r) rows
      then ok
          (count_where (guard id version) rows, table.put (delete_where (guard id version) rows) t)
      else err (sqlite_failure constraint_violation)

  abbrev pub read_version : Option R → Result (Option ℕ) SqlError
  read_version none = ok none
  read_version (some r) = column_u32 0 (table.version_of r) >>= λ version. ok (some version)

  -- `SELECT version FROM … WHERE id = ?1`
  abbrev pub version_sql : ℕ → T → Result (Option ℕ) SqlError
  version_sql id t = read_version (row_of id t)

  -- The id is a primary key.
  abbrev pub HasDistinctIds : T → Type 0
  HasDistinctIds t = Pairwise (λ x y. table.id_of x ≢ table.id_of y) (table.rows t)

-- What the fields of a table have to do with each other.
pub record IsTable {T R : Type 0} (table : Table T R) : Type 0 where
  pub rows-put : (rows : List R) (t : T) → table.rows (table.put rows t) ≡ rows
  pub put-rows : (t : T) → table.put (table.rows t) t ≡ t
