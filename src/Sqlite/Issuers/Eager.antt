-- ===== src/Sqlite/Issuers/Eager.antt =====
-- What an eager read attaches to its issuers, for all of them, for a page and for one.
use valqeron.Base.{
  ℕ, zero, suc, ◌||◌, ◌≡◌, ◌≢◌, inl, inr, refl, sym, ap, ◌∙◌, subst, Bool, true, false, ◌==◌,
  ==_iff, List, [], ◌∷◌, map, All, All-map_imp, Option, none, some, Bool-cases, arith, Result, ok,
  err, map_err, ◌>>=◌, >>=-eq-ok, ok-injective, take,
}
use valqeron.Domain.Common.{Versioned, eager}
use valqeron.Domain.Ids.{IssuerId}
use valqeron.Domain.Issuer.Types.{Issuer, reconstitute}
use valqeron.Domain.Steps.{Pairwise, any_of}
use valqeron.Sqlite.Columns.{Library}
use valqeron.Sqlite.Issuers.Hydration.{hydrate_rows}
use valqeron.Sqlite.Issuers.Hydration.Grouping.{owned, hydrate_rows_lem}
use valqeron.Sqlite.Issuers.Pages.{from_row-id}
use valqeron.Sqlite.Issuers.Queries as Queries
use valqeron.Sqlite.Issuers.Repository.{
  find_by_id, list_all, list_paged, list_in_mode, securities_for_all_issuers,
  securities_for_issuer_page,
}
use valqeron.Sqlite.Issuers.Rows.{IssuerRow, from_row, reconstitute_with}
use valqeron.Sqlite.Ordering.{
  All-order_by, where_-order_by, where_-order_by-key, DistinctKeys, Pairwise-where_, All-where_,
  order_by-Ascending,
}
use valqeron.Sqlite.Paging.{collect-where_, collect-All, collect-Pairwise}
use valqeron.Sqlite.Schema.{IssuerRecord, SecurityRecord, Tables, issuer_table}
use valqeron.Sqlite.Schema.Consistent.{IsConsistent}
use valqeron.Sqlite.Securities.Pages as SecurityPages
use valqeron.Sqlite.Securities.Queries as Securities
use valqeron.Sqlite.Securities.Rows as SecurityRows
use valqeron.Sqlite.Securities.Rows.{SecurityRow}
use valqeron.Sqlite.Session.{Host, Session, select, unless_refused}
use valqeron.Sqlite.Sql.{SqlError, backend, where_, order_by, collect, page, query_row, is_after}
use valqeron.Sqlite.Table.{row_of}
use valqeron.Sqlite.Table.Keeping.{All-both}

-- The rows in which each id is looked up are those that are found.
find-each :
    (rows : List IssuerRecord)
    → DistinctKeys (λ r. r.id) rows
    → All (λ r. query_row (λ o. o.id == r.id) rows ≡ some r) rows
find-each [] d = tt
find-each (x ∷ rows) d = (
  (let same : (x.id == x.id) ≡ true = ground arith in rw same refl),
  All-both rows
      (λ r (ne : x.id ≢ r.id) found.
        let other : (x.id == r.id) ≡ false = ground (arith, ne) in rw other found)
      d.0 (find-each rows d.1),
)

or_right : (a b : Bool) → b ≡ true → (a || b) ≡ true
or_right true b h = refl
or_right false b h = h

any-each : (rows : List IssuerRecord) → All (λ r. any_of (λ i. i.id == r.id) rows ≡ true) rows
any-each [] = tt
any-each (x ∷ rows) = (
  (let same : (x.id == x.id) ≡ true = ground arith in rw same refl),
  All-map_imp _ _ (λ r found. or_right (x.id == r.id) _ found) rows (any-each rows),
)

-- A selection from a selection that leaves nothing of it out.
where_-within :
    {A : Type 0} (test wide : A → Bool) (xs : List A)
    → ((x : A) → test x ≡ true → wide x ≡ true)
    → where_ test (where_ wide xs) ≡ where_ test xs
where_-within test wide [] f = refl
where_-within test wide (x ∷ xs) f =
    let rest = where_-within test wide xs f in
    elim (Bool-cases (test x)) [
      | inl y ↦ rw (y, f x y) (rw y (ap (◌∷◌ x) rest))
      | inr n ↦ elim (Bool-cases (wide x)) [
        | inl w ↦ rw (n, w) (rw n rest)
        | inr w ↦ rw (n, w) rest
      ]
    ]

All-take : {A : Type 0} (P : A → Type 0) (n : ℕ) (xs : List A) → All P xs → All P (take n xs)
All-take P zero xs h = tt
All-take P (suc n) [] h = tt
All-take P (suc n) (x ∷ xs) h = (h.0, All-take P n xs h.1)

Pairwise-take :
    {A : Type 0} (Rel Rel' : A → A → Type 0) (n : ℕ) (xs : List A)
    → ((x y : A) → Rel x y → Rel' x y)
    → Pairwise Rel xs
    → Pairwise Rel' (take n xs)
Pairwise-take Rel Rel' zero xs f h = tt
Pairwise-take Rel Rel' (suc n) [] f h = tt
Pairwise-take Rel Rel' (suc n) (x ∷ xs) f h =
    (All-take (Rel' x) n xs (All-map_imp _ _ (f x) xs h.0), Pairwise-take Rel Rel' n xs f h.1)

Pairwise-imp :
    {A : Type 0} (Rel Rel' : A → A → Type 0) (xs : List A)
    → ((x y : A) → Rel x y → Rel' x y)
    → Pairwise Rel xs
    → Pairwise Rel' xs
Pairwise-imp Rel Rel' [] f h = tt
Pairwise-imp Rel Rel' (x ∷ xs) f h = (All-map_imp _ _ (f x) xs h.0, Pairwise-imp Rel Rel' xs f h.1)

All-map :
    {A B : Type 0} (P : B → Type 0) (f : A → B) (xs : List A)
    → All (λ x. P (f x)) xs
    → All P (map f xs)
All-map P f [] h = tt
All-map P f (x ∷ xs) h = (h.0, All-map P f xs h.1)

map_err-ok : {A E F : Type 0} (f : E → F) (m : Result A E) {a : A} → map_err f m ≡ ok a → m ≡ ok a
map_err-ok f (ok b) h = ap ok (ok-injective h)
map_err-ok f (err e) h = cc h

unless_refused-ok :
    {A E : Type 0} (refused : Option E) (r : Result A E) {a : A}
    → unless_refused refused r ≡ ok a
    → (refused ≡ none) × (r ≡ ok a)
unless_refused-ok none r h = (refl, h)
unless_refused-ok (some e) r h = cc h

module _ {Time : Type 0} (lib : Library Time) where
  -- The securities of an issuer among those of a batch are those that the issuer has.
  batch_owned :
      (id : ℕ) (t : Tables) (batch : List SecurityRecord) {securities : List (SecurityRow Time)}
      → DistinctKeys (λ s. s.id) t.security
      → DistinctKeys (λ s. s.id) batch
      → where_ (λ s. s.issuer_id == id) batch ≡ where_ (λ s. s.issuer_id == id) t.security
      → collect
          (SecurityRows.from_row lib)
          (order_by (λ s. s.issuer_id) (order_by (λ s. s.id) batch))
        ≡ ok securities
      → Securities.list_by_issuer lib id t
        ≡ ok (where_ (λ r. r.inner.content.issuer_id == id) securities)
  unfolding Securities.list_by_issuer
  batch_owned id t batch {securities} d d' same e =
      let mine = λ (s : SecurityRecord). s.issuer_id == id in
      let order =
        where_-order_by-key (λ s. s.issuer_id) id (order_by (λ s. s.id) batch)
        ∙ where_-order_by (λ s. s.id) mine batch d'
        ∙ ap (order_by (λ (s : SecurityRecord). s.id)) same in
      ap (collect (SecurityRows.from_row lib)) (sym order)
      ∙ collect-where_ (SecurityRows.from_row lib) mine (λ r. r.inner.content.issuer_id == id)
          (order_by (λ s. s.issuer_id) (order_by (λ s. s.id) batch))
          (λ x v read. ap (λ i. i == id) ((SecurityPages.from_row-ids lib x v read).1)) e

module _ {Time World : Type 0} (lib : Library Time) (host : Host World) where
  -- What a single eager read makes of a row that was read with others.
  found_eagerly :
      (s : Session Tables World) (row : IssuerRow Time) (r : IssuerRecord)
      (securities : List (SecurityRow Time))
      → host.refuses s.world 0 ≡ none
      → host.refuses s.world 1 ≡ none
      → from_row lib r ≡ ok row
      → row_of issuer_table r.id s.tables ≡ some r
      → Securities.list_by_issuer lib r.id s.tables
        ≡ ok (where_ (λ x. x.inner.content.issuer_id == r.id) securities)
      → find_by_id lib host row.inner.content.id eager s
        ≡ ok (some (reconstitute_with row.inner (owned row.inner.content.id securities)))
  unfolding find_by_id Queries.find_by_id select
  found_eagerly s row r securities free again read found listed =
      subst
        (λ (i : ℕ).
          find_by_id lib host i eager s
          ≡ ok (some (reconstitute_with row.inner (owned i securities))))
        (sym (from_row-id lib r row read)) (rw (free, found, read) (rw (again, listed) refl))

  -- What an eager read of many issuers gives, each looked up by itself.
  each_eagerly :
      (s : Session Tables World) (l : List IssuerRecord) (batch : List SecurityRecord)
      {rows : List (IssuerRow Time)} {securities : List (SecurityRow Time)}
      → IsConsistent s.tables
      → host.refuses s.world 0 ≡ none
      → host.refuses s.world 1 ≡ none
      → DistinctKeys (λ r. r.id) l
      → DistinctKeys (λ r. r.id) batch
      → All
          (λ r.
            (row_of issuer_table r.id s.tables ≡ some r)
            × (where_ (λ x. x.issuer_id == r.id) batch
                ≡ where_ (λ x. x.issuer_id == r.id) s.tables.security))
          l
      → collect (from_row lib) l ≡ ok rows
      → collect
          (SecurityRows.from_row lib)
          (order_by (λ x. x.issuer_id) (order_by (λ x. x.id) batch))
        ≡ ok securities
      → All
          (λ v. find_by_id lib host v.content.id eager s ≡ ok (some v))
          (hydrate_rows rows securities)
  unfolding reconstitute_with reconstitute
  each_eagerly s l batch {rows} {securities} c free again d d' h e e' =
      subst (All (λ v. find_by_id lib host v.content.id eager s ≡ ok (some v)))
        (sym (
          hydrate_rows_lem rows securities (
            collect-Pairwise (from_row lib) (λ r. r.id) (λ r. r.inner.content.id) l
              (from_row-id lib) d e)))
        (All-map _ _ rows (
          collect-All (from_row lib) _ _ l
            (λ r row k read.
              found_eagerly s row r securities free again read k.0
                (batch_owned lib r.id s.tables batch c.security_ids d' k.1 e'))
            h e))

  -- What an eager list has read.
  eager_reads :
      (s : Session Tables World) (first : Tables → Result (List (IssuerRow Time)) SqlError)
      (companion : Tables → Result (List (SecurityRow Time)) SqlError)
      {items : List (Versioned (Issuer Time))}
      → map_err backend
          (select host 0 first s >>= λ rows. list_in_mode lib host eager companion rows s)
        ≡ ok items
      → (host.refuses s.world 0 ≡ none)
        × (host.refuses s.world 1 ≡ none)
        × (rows : List (IssuerRow Time)) × (securities : List (SecurityRow Time)) × (first s.tables
            ≡ ok rows)
        × (companion s.tables ≡ ok securities)
        × (items ≡ hydrate_rows rows securities)
  unfolding select
  eager_reads s first companion h =
      let e = map_err-ok backend _ h in
      let (rows, e₁, rest) = >>=-eq-ok (select host 0 first s) _ e in
      let (securities, e₂, last) = >>=-eq-ok (select host 1 companion s) _ rest in
      let (free, r₁) = unless_refused-ok (host.refuses s.world 0) (first s.tables) e₁ in
      let (again, r₂) = unless_refused-ok (host.refuses s.world 1) (companion s.tables) e₂ in
      (free, again, rows, securities, r₁, r₂, sym (ok-injective last))

  -- Each issuer that an eager list of all gives is what an eager read of its id gives: its own
  -- securities are attached, in the same order, and no others.
  pub issuer-list_all-eager :
      (s : Session Tables World) {items : List (Versioned (Issuer Time))}
      → IsConsistent s.tables
      → list_all lib host eager s ≡ ok items
      → All (λ v. find_by_id lib host v.content.id eager s ≡ ok (some v)) items
  unfolding list_all Queries.list_all securities_for_all_issuers
  issuer-list_all-eager s c h =
      let (free, again, rows, securities, e₁, e₂, same) =
        eager_reads s (Queries.list_all lib) (securities_for_all_issuers lib) h in
      let l = order_by (λ (r : IssuerRecord). r.id) s.tables.issuer in
      subst (All (λ v. find_by_id lib host v.content.id eager s ≡ ok (some v))) (sym same) (
        each_eagerly s l s.tables.security c free again
          (Pairwise-imp _ _ l (λ x y less e. absurd (omega (arith, less, e)))
            (order_by-Ascending (λ r. r.id) s.tables.issuer c.issuer_ids))
          c.security_ids
          (All-order_by (λ r. r.id) _ s.tables.issuer
            (All-map_imp _ _ (λ r found. (found, refl)) s.tables.issuer
              (find-each s.tables.issuer c.issuer_ids)))
          e₁ e₂)

  -- So is each issuer of an eager page: its securities are read by a join with the page, and none is
  -- left out.
  pub issuer-list_paged-eager :
      (after : Option IssuerId) (limit : ℕ) (s : Session Tables World)
      {items : List (Versioned (Issuer Time))}
      → IsConsistent s.tables
      → list_paged lib host after limit eager s ≡ ok items
      → All (λ v. find_by_id lib host v.content.id eager s ≡ ok (some v)) items
  unfolding list_paged Queries.list_paged securities_for_issuer_page page
  issuer-list_paged-eager after limit s c h =
      let t = s.tables in
      let (free, again, rows, securities, e₁, e₂, same) =
        eager_reads s (Queries.list_paged lib after limit)
          (securities_for_issuer_page lib after limit) h in
      let later = λ (r : IssuerRecord). is_after after r.id in
      let chosen = order_by (λ (r : IssuerRecord). r.id) (where_ later t.issuer) in
      let l = take limit chosen in
      let joined = λ (x : SecurityRecord). any_of (λ i. i.id == x.issuer_id) l in
      let chosen_ids = Pairwise-where_ (λ x y. x.id ≢ y.id) later t.issuer c.issuer_ids in
      let found =
        All-take (λ r. row_of issuer_table r.id t ≡ some r) limit chosen
          (All-order_by (λ r. r.id) _ (where_ later t.issuer)
            (All-where_ _ later t.issuer (find-each t.issuer c.issuer_ids))) in
      subst (All (λ v. find_by_id lib host v.content.id eager s ≡ ok (some v))) (sym same) (
        each_eagerly s l (where_ joined t.security) c free again
          (Pairwise-take _ _ limit chosen (λ x y less e. absurd (omega (arith, less, e)))
            (order_by-Ascending (λ r. r.id) (where_ later t.issuer) chosen_ids))
          (Pairwise-where_ (λ x y. x.id ≢ y.id) joined t.security c.security_ids)
          (All-both l
            (λ r k there. (
              k,
              where_-within (λ x. x.issuer_id == r.id) joined t.security
                  (λ x e.
                    subst (λ i. any_of (λ (o : IssuerRecord). o.id == i) l ≡ true)
                      (sym ((==_iff x.issuer_id r.id).0 e)) there),
            ))
            found (any-each l))
          e₁ e₂)
