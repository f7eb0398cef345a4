-- ===== src/Sqlite/Table/Updates.antt =====
-- What an UPDATE of crates/infrastructure/src/sqlite/repositories makes of its row, column by column.
use valqeron.Base.{ℕ, ◌≡◌, ◌≢◌, refl, Option, none, some, Result, ok, err}
use valqeron.Domain.Common.{WriteOutcome, applied, version_mismatch, missing}
use valqeron.Sqlite.Columns.{map_option}
use valqeron.Sqlite.Sql.{StorageFault, coalesce}
use valqeron.Sqlite.Table.{Table, row_of}
use valqeron.Sqlite.Table.Outcomes.{GuardedOutcome}

module _ {A B : Type 0} (write : A → B) where
  -- A column after a patch: the value that is set, or else what was there.
  abbrev pub Patched : Option A → Option B → Option B → Type 0
  Patched none before after = after ≡ before
  Patched (some a) before after = after ≡ some (write a)

  -- A column that is replaced: the value, or NULL where there is none.
  abbrev pub Replaced : Option A → Option B → Type 0
  Replaced none after = after ≡ none
  Replaced (some a) after = after ≡ some (write a)

module _ {T R : Type 0} (table : Table T R) where
  -- A guarded update of one id: it took place, on the row of the expected version, which became one
  -- that `Change` relates it to, and no other row changed; or nothing changed, because the row has
  -- another version, because there is none, or for a fault.
  abbrev pub ChangeOutcome :
      ℕ → ℕ → (R → R → Type 0) → T → Result WriteOutcome StorageFault → T → Type 0
  ChangeOutcome id expected Change t (ok applied) t' =
      (before : R) × (after : R) × (row_of table id t ≡ some before)
      × (table.version_of before ≡ expected)
      × (row_of table id t' ≡ some after)
      × Change before after
      × ((other : ℕ) → other ≢ id → row_of table other t' ≡ row_of table other t)
  ChangeOutcome id expected Change t (ok (version_mismatch e actual)) t' =
      (t' ≡ t)
      × (e ≡ expected)
      × (actual ≢ expected)
      × (r : R) × (row_of table id t ≡ some r)
      × (table.version_of r ≡ actual)
  ChangeOutcome id expected Change t (ok missing) t' = (t' ≡ t) × (row_of table id t ≡ none)
  ChangeOutcome id expected Change t (err fault) t' = t' ≡ t

  pub GuardedOutcome-ChangeOutcome :
      (id expected : ℕ) (change : R → R) (Change : R → R → Type 0)
      → ((r : R) → Change r (change r))
      → (t : T) (r : Result WriteOutcome StorageFault) (t' : T)
      → GuardedOutcome table id expected (λ r. some (change r)) t r t'
      → ChangeOutcome id expected Change t r t'
  GuardedOutcome-ChangeOutcome id expected change Change made t (ok applied) t' h =
      let (before, found, version, after, others) = h in
      (before, change before, found, version, after, made before, others)
  GuardedOutcome-ChangeOutcome id expected change Change made t (ok (version_mismatch e a)) t' h = h
  GuardedOutcome-ChangeOutcome id expected change Change made t (ok missing) t' h = h
  GuardedOutcome-ChangeOutcome id expected change Change made t (err fault) t' h = h

module _ {A B : Type 0} (write : A → B) where
  pub coalesce-Patched :
      (o : Option A) (column : Option B)
      → Patched write o column (coalesce (map_option write o) column)
  coalesce-Patched none column = refl
  coalesce-Patched (some a) column = refl

  pub map_option-Replaced : (o : Option A) → Replaced write o (map_option write o)
  map_option-Replaced none = refl
  map_option-Replaced (some a) = refl

pub coalesce_same-Patched :
    {A : Type 0} (o column : Option A) → Patched (λ a. a) o column (coalesce o column)
coalesce_same-Patched none column = refl
coalesce_same-Patched (some a) column = refl

pub same-Replaced : {A : Type 0} (o : Option A) → Replaced (λ a. a) o o
same-Replaced none = refl
same-Replaced (some a) = refl
