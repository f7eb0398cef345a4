-- ===== src/Sqlite/Issuers/Hydration.antt =====
-- How crates/infrastructure/src/sqlite/repositories/issuer.rs attaches securities, read by one
-- statement, to the issuers that another one read. The hash map is a list of keys and values, whose
-- order is not looked at.
pub mod Grouping
use valqeron.Base.{ℕ, ◌==◌, List, [], ◌∷◌, ◌++◌, if◌then◌else◌}
use valqeron.Domain.Common.{Versioned}
use valqeron.Domain.Issuer.Types.{Issuer}
use valqeron.Domain.Security.Types.{Security}
use valqeron.Sqlite.Issuers.Rows.{IssuerRow, reconstitute_with}
use valqeron.Sqlite.Securities.Rows.{SecurityRow}

-- `HashMap<Uuid, Vec<Security>>`
abbrev pub Groups : Type 0 → Type 0
Groups Time = List (ℕ × List (Security Time))

module _ {Time : Type 0} where
  -- `grouped.entry(key).or_default().push(security)`
  unfoldable pub push_to : ℕ → Security Time → Groups Time → Groups Time
  push_to key security [] = (key, security ∷ []) ∷ []
  push_to key security ((k, group) ∷ grouped) =
      let rest = push_to key security grouped in
      if k == key then (k, group ++ (security ∷ [])) ∷ grouped else (k, group) ∷ rest

  -- The first loop of `hydrate_rows`.
  unfoldable pub group_rows : Groups Time → List (SecurityRow Time) → Groups Time
  group_rows grouped [] = grouped
  group_rows grouped (row ∷ rows) =
      let security = row.inner.content in
      group_rows (push_to security.issuer_id security grouped) rows

  -- `grouped.remove(key).unwrap_or_default()`: the value, and the map that is left.
  unfoldable pub removed : ℕ → Groups Time → List (Security Time)
  removed key [] = []
  removed key ((k, group) ∷ grouped) =
      let rest = removed key grouped in if k == key then group else rest

  unfoldable pub without : ℕ → Groups Time → Groups Time
  without key [] = []
  without key ((k, group) ∷ grouped) =
      let rest = without key grouped in if k == key then grouped else (k, group) ∷ rest

  -- The second loop.
  unfoldable pub attach : Groups Time → List (IssuerRow Time) → List (Versioned (Issuer Time))
  attach grouped [] = []
  attach grouped (row ∷ rows) =
      reconstitute_with row.inner (removed row.inner.content.id grouped)
      ∷ attach (without row.inner.content.id grouped) rows

  unfoldable pub hydrate_rows :
      List (IssuerRow Time) → List (SecurityRow Time) → List (Versioned (Issuer Time))
  hydrate_rows rows securities = attach (group_rows [] securities) rows
