-- ===== src/Sqlite/Columns.antt =====
-- crates/infrastructure/src/sqlite/row.rs: how a column is read and a time is written. The functions
-- of chrono, the upper case of Unicode and the table that the build generates are parameters.
use valqeron.Base.{
  ℕ, ◌+◌, ◌≡◌, refl, List, [], ◌∷◌, Option, none, some, Result, ok, err, map_err, if◌then◌else◌,
  Bool, true, not, ◌&&◌, all,
}
use valqeron.Identifiers.Cfi.{CfiCategoryEntry}
use valqeron.Sqlite.Sql.{SqlError, from_sql_conversion_failure, ColumnType, text_type}
use valqeron.Text.{Text, text_eq, is_ascii, is_ascii_lowercase}

-- `str::to_uppercase`, `DateTime::to_rfc3339_opts` with milliseconds, and
-- `DateTime::parse_from_rfc3339` with the change to UTC.
pub record Library (Time : Type 0) : Type 0 where
  pub to_uppercase : Text → Text
  pub to_rfc3339_millis : Time → Text
  pub parse_from_rfc3339 : Text → Option Time
  -- `CFI_CATEGORIES`
  pub cfi_categories : List CfiCategoryEntry

abbrev position_from : ℕ → Text → List Text → ℕ
position_from n name [] = 0
position_from n name (c ∷ columns) =
    let rest = position_from (n + 1) name columns in if text_eq c name then n else rest

-- The place of a column among those of a statement, or 0.
unfoldable pub column_index : List Text → Text → ℕ
column_index columns name = position_from 0 name columns

abbrev pub conversion_failure : ℕ → ColumnType → SqlError
conversion_failure = from_sql_conversion_failure

-- `T::from_str(&raw).map_err(…)`
abbrev pub convert : {A E : Type 0} → ℕ → ColumnType → Result A E → Result A SqlError
convert column kind r = map_err (λ _. conversion_failure column kind) r

abbrev pub transpose : {A E : Type 0} → Option (Result A E) → Result (Option A) E
transpose none = ok none
transpose (some (ok a)) = ok (some a)
transpose (some (err e)) = err e

abbrev pub map_option : {A B : Type 0} → (A → B) → Option A → Option B
map_option f none = none
map_option f (some a) = some (f a)

abbrev pub ok_or : {A E : Type 0} → E → Option A → Result A E
ok_or e none = err e
ok_or e (some a) = ok a

module _ {Time : Type 0} (lib : Library Time) where
  unfoldable pub canonical_timestamp : Time → Text
  canonical_timestamp time = lib.to_rfc3339_millis time

  unfoldable pub column_datetime : ℕ → Text → Result Time SqlError
  column_datetime column raw =
      ok_or (conversion_failure column text_type) (lib.parse_from_rfc3339 raw)

-- A character of a text that is ASCII and not a lower case letter.
abbrev pub is_unchanged : ℕ → Bool
is_unchanged c = is_ascii c && not (is_ascii_lowercase c)

-- What the repositories rely on: the upper case of an ASCII text with no lower case letter is that
-- text, and a time that is written with milliseconds is read as the time cut off there.
pub record IsDocumented {Time : Type 0} (lib : Library Time) (in_millis : Time → Time)
    : Type 0 where
  pub upper : (t : Text) → all is_unchanged t ≡ true → lib.to_uppercase t ≡ t
  pub read :
      (time : Time) → lib.parse_from_rfc3339 (lib.to_rfc3339_millis time) ≡ some (in_millis time)

-- An optional value of a type whose only way in is a fallible constructor.
abbrev pub IsMade : {A B E : Type 0} → (B → Result A E) → Option A → Type 0
IsMade make none = Unit
IsMade {B = B} make (some a) = (b : B) × (make b ≡ ok a)

-- What was made, written out and read again by its constructor, is there again.
pub convert-made :
    {A E : Type 0} (column : ℕ) (kind : ColumnType) (make : Text → Result A E) (write : A → Text)
    (o : Option A)
    → ((t : Text) (a : A) → make t ≡ ok a → make (write a) ≡ ok a)
    → IsMade make o
    → convert column kind (transpose (map_option make (map_option write o))) ≡ ok o
convert-made column kind make write none again made = refl
convert-made column kind make write (some a) again (t, e) = rw (again t a e) refl

pub column_datetime-canonical_timestamp :
    {Time : Type 0} (lib : Library Time) (in_millis : Time → Time) (column : ℕ) (time : Time)
    → IsDocumented lib in_millis
    → column_datetime lib column (canonical_timestamp lib time) ≡ ok (in_millis time)
unfolding column_datetime canonical_timestamp
column_datetime-canonical_timestamp lib in_millis column time doc = rw (doc.read time) refl
