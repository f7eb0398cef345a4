-- ===== src/Sqlite/Session.antt =====
-- The calls of crates/infrastructure/src/sqlite/repositories on a connection. What the engine of
-- SQLite does to a statement besides what its SQL says is a parameter: it may refuse it, busy,
-- locked or for another fault, and then the tables are as they were.
use valqeron.Base.{ℕ, zero, suc, Option, none, some, Result, ok, err, map_err, ◌>>=◌}
use valqeron.Domain.Common.{WriteOutcome, applied, IsGiven}
use valqeron.Sqlite.Sql.{SqlError, StorageFault, backend, is_busy_or_locked}
use valqeron.Sqlite.Support.{with_busy_retry, with_busy_retry_total, write_outcome}

-- Whether the nth statement of a call is refused, and what the world is after a call that writes.
pub record Host (World : Type 0) : Type 0 where
  pub refuses : World → ℕ → Option SqlError
  pub next : World → World

pub record Session (T World : Type 0) : Type 0 where
  pub tables : T
  pub world : World

abbrev pub unless_refused : {A E : Type 0} → Option E → Result A E → Result A E
unless_refused (some e) r = err e
unless_refused none r = r

-- `match changed? { 0 => write_outcome(…), _ => Ok(WriteOutcome::Applied) }`
abbrev pub changed : {E : Type 0} → Result ℕ E → Result WriteOutcome E → Result WriteOutcome E
changed (err e) otherwise = err e
changed (ok zero) otherwise = otherwise
changed (ok (suc n)) otherwise = ok applied

module _ {T : Type 0} where
  -- What is left by a statement that writes: an error changes no table.
  abbrev pub tables_after : Result (ℕ × T) SqlError → T → T
  tables_after (ok (count, after)) before = after
  tables_after (err e) before = before

  abbrev pub count_of : Result (ℕ × T) SqlError → Result ℕ SqlError
  count_of (ok (count, after)) = ok count
  count_of (err e) = err e

module _ {T World : Type 0} (host : Host World) where
  -- The nth statement of a call, one that reads.
  unfoldable pub select :
      {A : Type 0} → ℕ → (T → Result A SqlError) → Session T World → Result A SqlError
  select n statement s = unless_refused (host.refuses s.world n) (statement s.tables)

  -- The first statement of a call, one that writes.
  unfoldable pub execute :
      (T → Result (ℕ × T) SqlError) → Session T World → Result ℕ SqlError × Session T World
  execute statement s =
      let r = unless_refused (host.refuses s.world 0) (statement s.tables) in
      (count_of r, record { tables = tables_after r s.tables; world = host.next s.world })

  -- A guarded write, and the version that is read again where it changed no row.
  unfoldable pub guarded :
      (T → Result (ℕ × T) SqlError)
      → (T → Result (Option ℕ) SqlError)
      → ℕ
      → Session T World
      → Result WriteOutcome SqlError × Session T World
  guarded statement version_sql expected_version s =
      let after = (execute statement s).1 in
      (
        changed (execute statement s).0 (
            write_outcome (unless_refused (host.refuses s.world 1) (version_sql after.tables))
              expected_version),
        after,
      )

-- `.map(|_| ())`
abbrev pub discard : {A E S : Type 0} → (S → Result A E × S) → S → Result (Unit {0}) E × S
discard op s = ((op s).0 >>= λ _. ok tt, (op s).1)

-- The retried call is over in five rounds, so there is a result.
abbrev pub finished : {A : Type 0} → (o : Option A) → IsGiven o → A
finished (some a) given = a
finished none given = absurd given

-- `with_busy_retry(op).map_err(backend)`
unfoldable pub retrying :
    {A S : Type 0} → (S → Result A SqlError × S) → S → Result A StorageFault × S
retrying op s =
    let r =
      finished (with_busy_retry is_busy_or_locked op s)
        (with_busy_retry_total is_busy_or_locked op s) in
    (map_err backend r.result, r.store)
