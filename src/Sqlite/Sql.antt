-- ===== src/Sqlite/Sql.antt =====
-- What the SQL texts of crates/infrastructure/src/sqlite/repositories mean: tests of three values,
-- rows selected, put in order and counted. A table is a list of rows in no order of its own.
use valqeron.Base.{
  ℕ, suc, Bool, true, false, leb, ltb, take, List, [], ◌∷◌, Option, none, some, Result, ok, ◌>>=◌,
  if◌then◌else◌,
}
use valqeron.Text.{Text, text_eq}

-- `rusqlite::ErrorCode`, as far as the code looks at it.
pub data ErrorCode : Type 0 where
  database_busy database_locked constraint_violation other_failure : ErrorCode

-- `rusqlite::types::Type`
pub data ColumnType : Type 0 where
  integer_type text_type blob_type : ColumnType

-- `rusqlite::Error`, without the error that a conversion failed with.
pub data SqlError : Type 0 where
  sqlite_failure : ErrorCode → SqlError
  from_sql_conversion_failure : ℕ → ColumnType → SqlError
  integral_value_out_of_range : ℕ → ℕ → SqlError

-- `is_busy_or_locked`
abbrev pub is_busy_or_locked : SqlError → Bool
is_busy_or_locked (sqlite_failure database_busy) = true
is_busy_or_locked (sqlite_failure database_locked) = true
is_busy_or_locked (sqlite_failure constraint_violation) = false
is_busy_or_locked (sqlite_failure other_failure) = false
is_busy_or_locked (from_sql_conversion_failure column kind) = false
is_busy_or_locked (integral_value_out_of_range column value) = false

-- `StorageFault`
pub data StorageFault : Type 0 where
  storage_fault : SqlError → StorageFault

abbrev pub backend : SqlError → StorageFault
backend e = storage_fault e

-- What a test comes to where a column may be NULL.
pub data Truth : Type 0 where
  holds fails unknown : Truth

abbrev pub truth : Bool → Truth
truth true = holds
truth false = fails

abbrev pub either : Truth → Truth → Truth
either holds q = holds
either fails q = q
either unknown holds = holds
either unknown fails = unknown
either unknown unknown = unknown

-- A CHECK refuses a row only where its test fails.
abbrev pub not_violated : Truth → Bool
not_violated holds = true
not_violated fails = false
not_violated unknown = true

module _ {A : Type 0} where
  abbrev pub is_null : Option A → Bool
  is_null none = true
  is_null (some a) = false

  -- A comparison with a column that may be NULL.
  abbrev pub compares : (A → Bool) → Option A → Truth
  compares test none = unknown
  compares test (some a) = truth (test a)

  -- `COALESCE(?n, column)`
  abbrev pub coalesce : Option A → Option A → Option A
  coalesce (some a) column = some a
  coalesce none column = column

  -- `COALESCE` on a column that is never NULL.
  abbrev pub coalesce_value : Option A → A → A
  coalesce_value (some a) column = a
  coalesce_value none column = column

  -- `SELECT … WHERE`
  abbrev pub where_ : (A → Bool) → List A → List A
  where_ test [] = []
  where_ test (r ∷ rows) = let rest = where_ test rows in if test r then r ∷ rest else rest

  -- The first row of a selection.
  abbrev pub query_row : (A → Bool) → List A → Option A
  query_row test [] = none
  query_row test (r ∷ rows) = if test r then some r else query_row test rows

  -- `UPDATE … SET … WHERE`
  abbrev pub update_where : (A → Bool) → (A → A) → List A → List A
  update_where test change [] = []
  update_where test change (r ∷ rows) =
      (if test r then change r else r) ∷ update_where test change rows

  -- `DELETE … WHERE`
  abbrev pub delete_where : (A → Bool) → List A → List A
  delete_where test [] = []
  delete_where test (r ∷ rows) =
      let rest = delete_where test rows in if test r then rest else r ∷ rest

  -- The number of rows that a statement changes.
  abbrev pub count_where : (A → Bool) → List A → ℕ
  count_where test [] = 0
  count_where test (r ∷ rows) =
      let rest = count_where test rows in if test r then suc rest else rest

module _ {A : Type 0} (key : A → ℕ) where
  abbrev pub insert_by : A → List A → List A
  insert_by r [] = r ∷ []
  insert_by r (other ∷ rows) =
      if leb (key r) (key other) then r ∷ other ∷ rows else other ∷ insert_by r rows

  -- `ORDER BY`
  abbrev pub order_by : List A → List A
  order_by [] = []
  order_by (r ∷ rows) = insert_by r (order_by rows)

-- `query_map(…)?.collect()`, up to the first row that cannot be read.
abbrev pub collect : {A B E : Type 0} → (A → Result B E) → List A → Result (List B) E
collect read [] = ok []
collect read (r ∷ rows) = read r >>= λ value. collect read rows >>= λ values. ok (value ∷ values)

-- `column = ?1`, where NULL equals nothing.
abbrev pub equals : Text → Option Text → Bool
equals value none = false
equals value (some c) = text_eq c value

-- `WHERE id > ?1`, where there is a last id.
abbrev pub is_after : Option ℕ → ℕ → Bool
is_after none id = true
is_after (some last) id = ltb last id

-- A page of the ids in order: `WHERE id > ?1 ORDER BY id LIMIT ?2`.
unfoldable pub page : {R : Type 0} → (R → ℕ) → Option ℕ → ℕ → List R → List R
page id_of after limit rows =
    take limit (order_by id_of (where_ (λ r. is_after after (id_of r)) rows))
