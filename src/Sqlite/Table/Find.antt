-- ===== src/Sqlite/Table/Find.antt =====
-- The row of an id in a table, after the statements that write it.
use valqeron.Base.{
  ℕ, ◌≡◌, ◌≢◌, inl, inr, refl, sym, ap, ◌∙◌, true, ◌==◌, ==_iff, List, [], ◌∷◌, Option, none, some,
  if◌then◌else◌, All, Bool-cases, arith,
}
use valqeron.Domain.Steps.{Pairwise}
use valqeron.Sqlite.Sql.{query_row, update_where, delete_where, count_where}
use valqeron.Sqlite.Table.{Table, has_id, guard}

module _ {T R : Type 0} (table : Table T R) where
  abbrev pub find : ℕ → List R → Option R
  find id rows = query_row (has_id table id) rows

  abbrev pub Distinct : List R → Type 0
  Distinct rows = Pairwise (λ x y. table.id_of x ≢ table.id_of y) rows

  -- Where no row has an id, none is guarded by it.
  pub count-none :
      (id version : ℕ) (rows : List R)
      → find id rows ≡ none
      → count_where (guard table id version) rows ≡ 0
  count-none id version [] h = refl
  count-none id version (r ∷ rows) h = elim (Bool-cases (table.id_of r == id)) [
    | inl y ↦ absurd (cc (rw y at h))
    | inr n ↦ rw n (count-none id version rows (rw n at h))
  ]

  pub find-All : (id : ℕ) (rows : List R) → All (λ y. id ≢ table.id_of y) rows → find id rows ≡ none
  find-All id [] h = refl
  find-All id (r ∷ rows) h = elim (Bool-cases (table.id_of r == id)) [
    | inl y ↦ absurd (h.0 (sym ((==_iff (table.id_of r) id).0 y)))
    | inr n ↦ rw n (find-All id rows h.1)
  ]

  find-id : (id : ℕ) (rows : List R) {r : R} → find id rows ≡ some r → table.id_of r ≡ id
  find-id id [] h = cc h
  find-id id (x ∷ rows) {r} h = elim (Bool-cases (table.id_of x == id)) [
    | inl y ↦
        let e : x ≡ r = cc (rw y at h) in sym (ap table.id_of e) ∙ (==_iff (table.id_of x) id).0 y
    | inr n ↦ find-id id rows (rw n at h)
  ]

  -- Where ids are distinct, a guarded statement changes the row of the id or none.
  pub count-some :
      (id version : ℕ) (rows : List R) {r : R}
      → Distinct rows
      → find id rows ≡ some r
      → count_where (guard table id version) rows ≡ (if table.version_of r == version then 1 else 0)
  count-some id version [] d h = cc h
  count-some id version (x ∷ rows) {r} d h = elim (Bool-cases (table.id_of x == id)) [
    | inl y ↦
        let same = (==_iff (table.id_of x) id).0 y in
        let e : x ≡ r = cc (rw y at h) in
        let none_left = count-none id version rows (find-All id rows (rw same at d.0)) in
        ground (arith, none_left, e, same)
    | inr n ↦ rw n (count-some id version rows d.1 (rw n at h))
  ]

  -- A statement that changes no row leaves the rows as they are.
  pub update-none :
      (id version : ℕ) (change : R → R) (rows : List R)
      → count_where (guard table id version) rows ≡ 0
      → update_where (guard table id version) change rows ≡ rows
  update-none id version change [] h = refl
  update-none id version change (r ∷ rows) h = elim (Bool-cases (guard table id version r)) [
    | inl y ↦ absurd (ground (arith, y))
    | inr n ↦ rw n (ap (◌∷◌ r) (update-none id version change rows (rw n at h)))
  ]

  pub delete-none :
      (id version : ℕ) (rows : List R)
      → count_where (guard table id version) rows ≡ 0
      → delete_where (guard table id version) rows ≡ rows
  delete-none id version [] h = refl
  delete-none id version (r ∷ rows) h = elim (Bool-cases (guard table id version r)) [
    | inl y ↦ absurd (ground (arith, y))
    | inr n ↦ rw n (ap (◌∷◌ r) (delete-none id version rows (rw n at h)))
  ]

  -- The row of another id is what it was.
  pub find-update-other :
      (id other version : ℕ) (change : R → R) (rows : List R)
      → ((r : R) → table.id_of (change r) ≡ table.id_of r)
      → other ≢ id
      → find other (update_where (guard table id version) change rows) ≡ find other rows
  find-update-other id other version change [] keeps ne = refl
  find-update-other id other version change (r ∷ rows) keeps ne =
      let rest = find-update-other id other version change rows keeps ne in
      elim (Bool-cases (guard table id version r)) [
        | inl y ↦ rw y (ground (arith, keeps r, rest))
        | inr n ↦ rw n (rw rest refl)
      ]

  pub find-update :
      (id version : ℕ) (change : R → R) (rows : List R) {r : R}
      → ((r : R) → table.id_of (change r) ≡ table.id_of r)
      → find id rows ≡ some r
      → table.version_of r ≡ version
      → find id (update_where (guard table id version) change rows) ≡ some (change r)
  find-update id version change [] keeps h v = cc h
  find-update id version change (x ∷ rows) {r} keeps h v = elim (Bool-cases (table.id_of x == id)) [
    | inl y ↦
        let e : x ≡ r = cc (rw y at h) in
        let same = (==_iff (table.id_of x) id).0 y in
        let g : guard table id version x ≡ true = ground (arith, e, same) in
        rw g (rw (keeps x, y) (ap (λ (z : R). some (change z)) e))
    | inr n ↦ rw (n, n) (find-update id version change rows keeps (rw n at h) v)
  ]

  pub find-delete-other :
      (id other version : ℕ) (rows : List R)
      → other ≢ id
      → find other (delete_where (guard table id version) rows) ≡ find other rows
  find-delete-other id other version [] ne = refl
  find-delete-other id other version (r ∷ rows) ne =
      let rest = find-delete-other id other version rows ne in
      elim (Bool-cases (guard table id version r)) [
        | inl y ↦ rw y (ground (arith, rest))
        | inr n ↦ rw n (rw rest refl)
      ]

  pub find-delete :
      (id version : ℕ) (rows : List R) {r : R}
      → Distinct rows
      → find id rows ≡ some r
      → table.version_of r ≡ version
      → find id (delete_where (guard table id version) rows) ≡ none
  find-delete id version [] d h v = cc h
  find-delete id version (x ∷ rows) {r} d h v = elim (Bool-cases (table.id_of x == id)) [
    | inl y ↦
        let same = (==_iff (table.id_of x) id).0 y in
        let e : x ≡ r = cc (rw y at h) in
        let gone = find-All id rows (rw same at d.0) in
        let left = delete-none id version rows (count-none id version rows gone) in
        let g : guard table id version x ≡ true = ground (arith, e, same) in rw (g, left) gone
    | inr n ↦ rw (n, n) (find-delete id version rows d.1 (rw n at h) v)
  ]
