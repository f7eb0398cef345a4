-- ===== src/Sqlite/Table/Inserting.antt =====
-- A retried insertion, and the lookup of a key, for a table of
-- crates/infrastructure/src/sqlite/repositories.
use valqeron.Base.{
  ℕ, ◌≡◌, ◌≢◌, ◌↔◌, inl, inr, refl, sym, ap, ◌∙◌, Bool, true, false, List, [], ◌∷◌, Option, none,
  some, Result, ok, err, map_err, ◌>>=◌, ok-injective, All, Bool-cases,
}
use valqeron.Domain.Common.{is_some}
use valqeron.Domain.Steps.{any_of, All-any_of, Any-any_of, Any}
use valqeron.Sqlite.Columns.{map_option}
use valqeron.Sqlite.Retry.{retrying_once}
use valqeron.Sqlite.Session.{
  Host, Session, discard, execute, retrying, count_of, tables_after, unless_refused,
}
use valqeron.Sqlite.Sql.{SqlError, StorageFault, backend, query_row, equals}
use valqeron.Sqlite.Table.{Table, insert_into}
use valqeron.Sqlite.Table.Accepted.{insert_into-Inserted}
use valqeron.Text.{Text, text_eq_iff}

module _ {T : Type 0} where
  -- A statement whose count is thrown away, where it is not refused.
  pub inserted_statement :
      (refused : Option SqlError) (r : Result (ℕ × T) SqlError) (t : T)
      → ◌≡◌ {A = Result (Unit {0}) StorageFault}
          (map_err backend (count_of (unless_refused refused r) >>= λ _. ok tt))
          (ok tt)
      → (n : ℕ) × (r ≡ ok (n, tables_after (unless_refused refused r) t))
  inserted_statement (some e) r t h = cc h
  inserted_statement none (err e) t h = cc h
  inserted_statement none (ok (n, t')) t h = (n, refl)

  failed_statement :
      (r : Result (ℕ × T) SqlError) (t : T) {e : SqlError}
      → ◌≡◌ {A = Result (Unit {0}) SqlError} (count_of r >>= λ _. ok tt) (err e)
      → tables_after r t ≡ t
  failed_statement (ok (n, t')) t h = cc h
  failed_statement (err e) t h = refl

not_backend :
    (r : Result (Unit {0}) SqlError) {fault : StorageFault}
    → map_err backend r ≡ err fault
    → (e : SqlError) × (r ≡ err e)
not_backend (ok u) h = cc h
not_backend (err e) h = (e, refl)

module _ {T R World : Type 0} (table : Table T R) (host : Host World) where
  abbrev insertion : R → Session T World → Result (Unit {0}) SqlError × Session T World
  insertion r = discard (execute host (insert_into table r))

  insertion-failed :
      (r : R) (s : Session T World) {e : SqlError}
      → (insertion r s).0 ≡ err e
      → (insertion r s).1.tables ≡ s.tables
  unfolding execute
  insertion-failed r s failed =
      failed_statement (unless_refused (host.refuses s.world 0) (insert_into table r s.tables))
        s.tables failed

  insertion_once :
      (r : R) (s : Session T World)
      → (s' : Session T World) × (s'.tables ≡ s.tables)
        × (retrying (insertion r) s ≡ (map_err backend (insertion r s').0, (insertion r s').1))
  insertion_once r s =
      retrying_once (insertion r) (λ s. s.tables) (λ _. Unit {0})
        (λ s e p failed. insertion-failed r s failed) s tt

  -- An insertion that succeeds adds the row, once.
  pub retrying-inserted :
      (r : R) (s : Session T World)
      → (retrying (discard (execute host (insert_into table r))) s).0 ≡ ok tt
      → (retrying (discard (execute host (insert_into table r))) s).1.tables
        ≡ table.put (r ∷ table.rows s.tables) s.tables
  unfolding execute
  retrying-inserted r s worked =
      let (s', same, e) = insertion_once r s in
      let (n, accepted) =
        inserted_statement (host.refuses s'.world 0) (insert_into table r s'.tables) s'.tables
          (sym (ap (λ p. p.0) e) ∙ worked) in
      ap (λ p. p.1.tables) e
      ∙ (insert_into-Inserted table r s'.tables _ n accepted).after
      ∙ ap (λ (t : T). table.put (r ∷ table.rows t) t) same

  -- An insertion that fails changes no table.
  pub retrying-not_inserted :
      (r : R) (s : Session T World) {fault : StorageFault}
      → (retrying (discard (execute host (insert_into table r))) s).0 ≡ err fault
      → (retrying (discard (execute host (insert_into table r))) s).1.tables ≡ s.tables
  retrying-not_inserted r s failed =
      let (s', same, e) = insertion_once r s in
      let (_, f) = not_backend (insertion r s').0 (sym (ap (λ p. p.0) e) ∙ failed) in
      ap (λ p. p.1.tables) e ∙ insertion-failed r s' f ∙ same

equals_iff : (t : Text) (o : Option Text) → (equals t o ≡ true) ↔ (o ≡ some t)
equals_iff t none = (λ e. cc e, λ e. cc e)
equals_iff t (some u) = (λ e. ap some ((text_eq_iff u t).0 e), λ e. (text_eq_iff u t).1 (cc e))

query_row-any_of :
    {A : Type 0} (p : A → Bool) (rows : List A) → is_some (query_row p rows) ≡ any_of p rows
query_row-any_of p [] = refl
query_row-any_of p (r ∷ rows) = elim (Bool-cases (p r)) [
  | inl y ↦ rw y refl
  | inr n ↦ rw n (query_row-any_of p rows)
]

answered :
    (refused : Option SqlError) (b : Bool) {answer : Bool}
    → map_err backend (unless_refused refused (ok b)) ≡ ok answer
    → b ≡ answer
answered none b h = ok-injective h
answered (some e) b h = cc h

module _ {R : Type 0} (column : R → Option Text) (refused : Option SqlError) (t : Text)
    (rows : List R) where
  abbrev answer : Result Bool StorageFault
  answer =
      map_err backend
        (unless_refused refused (ok (is_some (query_row (λ r. equals t (column r)) rows))))

  -- Where no row is reported to have a key, none has it.
  pub lookup-free : answer ≡ ok false → All (λ r. column r ≢ some t) rows
  lookup-free h =
      All-any_of (λ r. equals t (column r)) (λ r. column r ≡ some t)
        (λ r. (equals_iff t (column r)).1) rows
        (sym (query_row-any_of (λ r. equals t (column r)) rows) ∙ answered refused _ h)

  -- Where a row is reported to have a key, one has it.
  pub lookup-taken : answer ≡ ok true → Any (λ r. column r ≡ some t) rows
  lookup-taken h =
      Any-any_of (λ r. equals t (column r)) (λ r. column r ≡ some t)
        (λ r. (equals_iff t (column r)).0) rows
        (sym (query_row-any_of (λ r. equals t (column r)) rows) ∙ answered refused _ h)

pub Any-map_imp :
    {A : Type 0} (P Q : A → Type 0) → ((a : A) → P a → Q a) → (l : List A) → Any P l → Any Q l
Any-map_imp P Q f [] h = absurd h
Any-map_imp P Q f (a ∷ l) h = elim h [ inl p ↦ inl (f a p) | inr q ↦ inr (Any-map_imp P Q f l q) ]

-- A text that a key is made of.
pub made-some :
    {K : Type 0} (make : Text → K) (text : K → Text)
    → ((t : Text) → text (make t) ≡ t)
    → (o : Option Text) {k : K} → map_option make o ≡ some k
    → o ≡ some (text k)
made-some make text back none e = cc e
made-some make text back (some t) {k} e =
    let same : make t ≡ k = cc e in ap some (sym (back t) ∙ ap text same)

-- A key that is written to a text and made of it again.
pub made-text :
    {K : Type 0} (make : Text → K) (text : K → Text)
    → ((k : K) → make (text k) ≡ k)
    → (o : Option K) → map_option make (map_option text o) ≡ o
made-text make text back none = refl
made-text make text back (some k) = ap some (back k)
