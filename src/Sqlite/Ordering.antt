-- ===== src/Sqlite/Ordering.antt =====
-- What `ORDER BY` makes of rows with distinct keys, and how it goes with `WHERE`.
use valqeron.Base.{
  ℕ, ◌≤◌, ◌<◌, ◌≡◌, ◌≢◌, inl, inr, refl, ap, ◌∙◌, Bool, true, ◌==◌, leb, List, [], ◌∷◌, All,
  All-map_imp, if◌then◌else◌, Bool-cases, arith,
}
use valqeron.Domain.Steps.{Pairwise}
use valqeron.Sqlite.Sql.{where_, insert_by, order_by}

module _ {A : Type 0} where
  pub All-where_ :
      (P : A → Type 0) (test : A → Bool) (xs : List A) → All P xs → All P (where_ test xs)
  All-where_ P test [] h = tt
  All-where_ P test (x ∷ xs) h = elim (Bool-cases (test x)) [
    | inl y ↦ rw y (h.0, All-where_ P test xs h.1)
    | inr n ↦ rw n (All-where_ P test xs h.1)
  ]

  pub where_-test : (test : A → Bool) (xs : List A) → All (λ x. test x ≡ true) (where_ test xs)
  where_-test test [] = tt
  where_-test test (x ∷ xs) = elim (Bool-cases (test x)) [
    | inl y ↦ rw y (y, where_-test test xs)
    | inr n ↦ rw n (where_-test test xs)
  ]

  pub Pairwise-where_ :
      (Rel : A → A → Type 0) (test : A → Bool) (xs : List A)
      → Pairwise Rel xs
      → Pairwise Rel (where_ test xs)
  Pairwise-where_ Rel test [] h = tt
  Pairwise-where_ Rel test (x ∷ xs) h = elim (Bool-cases (test x)) [
    | inl y ↦ rw y (All-where_ (Rel x) test xs h.0, Pairwise-where_ Rel test xs h.1)
    | inr n ↦ rw n (Pairwise-where_ Rel test xs h.1)
  ]

module _ {A : Type 0} (key : A → ℕ) where
  abbrev pub Ascending : List A → Type 0
  Ascending xs = Pairwise (λ x y. key x < key y) xs

  abbrev pub DistinctKeys : List A → Type 0
  DistinctKeys xs = Pairwise (λ x y. key x ≢ key y) xs

  All-insert_by :
      (P : A → Type 0) (r : A) (xs : List A) → P r → All P xs → All P (insert_by key r xs)
  All-insert_by P r [] p h = (p, tt)
  All-insert_by P r (x ∷ xs) p h = elim (Bool-cases (leb (key r) (key x))) [
    | inl y ↦ rw y (p, h)
    | inr n ↦ rw n (h.0, All-insert_by P r xs p h.1)
  ]

  pub All-order_by : (P : A → Type 0) (xs : List A) → All P xs → All P (order_by key xs)
  All-order_by P [] h = tt
  All-order_by P (x ∷ xs) h = All-insert_by P x (order_by key xs) h.0 (All-order_by P xs h.1)

  insert_by-Ascending :
      (r : A) (xs : List A)
      → All (λ y. key r ≢ key y) xs
      → Ascending xs
      → Ascending (insert_by key r xs)
  insert_by-Ascending r [] d h = (tt, tt)
  insert_by-Ascending r (x ∷ xs) d h = elim (Bool-cases (leb (key r) (key x))) [
    | inl y ↦
        let less : key r < key x = ground (arith, y, d.0) in
        rw y ((less, All-map_imp _ _ (λ z (k : key x < key z). omega (arith, less, k)) xs h.0), h)
    | inr n ↦
        let more : key x < key r = ground (arith, n) in
        rw n (All-insert_by (λ z. key x < key z) r xs more h.0, insert_by-Ascending r xs d.1 h.1)
  ]

  pub order_by-Ascending : (xs : List A) → DistinctKeys xs → Ascending (order_by key xs)
  order_by-Ascending [] d = tt
  order_by-Ascending (x ∷ xs) d =
      insert_by-Ascending x (order_by key xs) (All-order_by (λ y. key x ≢ key y) xs d.0)
        (order_by-Ascending xs d.1)

  -- A row that is not after any other comes first.
  insert_by-least :
      (r : A) (xs : List A) → All (λ y. key r ≤ key y) xs → insert_by key r xs ≡ r ∷ xs
  insert_by-least r [] h = refl
  insert_by-least r (x ∷ xs) h =
      let first : leb (key r) (key x) ≡ true = ground (arith, h.0) in rw first refl

  where_-insert_by :
      (test : A → Bool) (r : A) (xs : List A)
      → Ascending xs
      → where_ test (insert_by key r xs)
        ≡ (if test r then insert_by key r (where_ test xs) else where_ test xs)
  where_-insert_by test r [] h = refl
  where_-insert_by test r (x ∷ xs) h = elim (Bool-cases (leb (key r) (key x))) [
    | inl y ↦
        let less : key r ≤ key x = ground (arith, y) in
        let least =
          All-where_ (λ z. key r ≤ key z) test (x ∷ xs)
            (less, All-map_imp _ _ (λ z (k : key x < key z). omega (arith, less, k)) xs h.0) in
        rw (y, insert_by-least r (where_ test (x ∷ xs)) least) refl
    | inr n ↦
        let rest = where_-insert_by test r xs h.1 in
        elim (Bool-cases (test x)) [
          | inl t ↦ elim (Bool-cases (test r)) [
            | inl s ↦ rw (n, t, s) (rw n (ap (◌∷◌ x) (rw s at rest)))
            | inr s ↦ rw (n, t, s) (ap (◌∷◌ x) (rw s at rest))
          ]
          | inr t ↦ rw (n, t) rest
        ]
  ]

  -- A selection of rows in order is the order of the selection.
  pub where_-order_by :
      (test : A → Bool) (xs : List A)
      → DistinctKeys xs
      → where_ test (order_by key xs) ≡ order_by key (where_ test xs)
  where_-order_by test [] d = refl
  where_-order_by test (x ∷ xs) d =
      let rest = where_-order_by test xs d.1 in
      where_-insert_by test x (order_by key xs) (order_by-Ascending xs d.1)
      ∙ (elim (Bool-cases (test x)) [ inl y ↦ rw (y, rest) refl | inr n ↦ rw (n, rest) refl ])

module _ {A : Type 0} (key : A → ℕ) where
  -- Rows of one key are not moved against each other.
  where_-insert_by-key :
      (k : ℕ) (r : A) (xs : List A)
      → where_ (λ x. key x == k) (insert_by key r xs) ≡ where_ (λ x. key x == k) (r ∷ xs)
  where_-insert_by-key k r [] = refl
  where_-insert_by-key k r (x ∷ xs) = elim (Bool-cases (leb (key r) (key x))) [
    | inl y ↦ rw y refl
    | inr n ↦
        let rest = where_-insert_by-key k r xs in
        let less : key x < key r = ground (arith, n) in rw n (ground (arith, rest, less))
  ]

  pub where_-order_by-key :
      (k : ℕ) (xs : List A)
      → where_ (λ x. key x == k) (order_by key xs) ≡ where_ (λ x. key x == k) xs
  where_-order_by-key k [] = refl
  where_-order_by-key k (x ∷ xs) =
      let rest = where_-order_by-key k xs in
      where_-insert_by-key k x (order_by key xs)
      ∙ (elim (Bool-cases (key x == k)) [ inl y ↦ rw y (ap (◌∷◌ x) rest) | inr n ↦ rw n rest ])
