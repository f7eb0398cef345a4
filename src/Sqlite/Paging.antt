-- ===== src/Sqlite/Paging.antt =====
-- Reading page after page, each after the last id of the page before it, against reading all rows.
use native.Mathlib.Nat.{suc-mul}
use valqeron.Base.{
  ℕ, zero, suc, ◌+◌, ◌*◌, ◌<◌, ◌≡◌, ◌≢◌, inl, inr, refl, sym, ap, ◌∙◌, subst, Bool, true, false,
  ltb, List, [], ◌∷◌, ◌++◌, All, All-map_imp, Option, none, some, Bool-cases, arith, take, drop,
  Result, ok, ◌>>=◌, >>=-eq-ok, ok-injective,
}
use valqeron.Sqlite.Ordering.{
  Ascending, DistinctKeys, where_-test, where_-order_by, order_by-Ascending,
}
use valqeron.Sqlite.Sql.{where_, order_by, is_after, page, collect}

one_more : (n k : ℕ) → suc n * k ≡ k + n * k
one_more n k = omega (arith, suc-mul n k)

module _ {A : Type 0} where
  take-nil : (n : ℕ) → take {A = A} n [] ≡ []
  take-nil zero = refl
  take-nil (suc n) = refl

  take-add : (a b c : ℕ) (xs : List A) → c ≡ a + b → take c xs ≡ take a xs ++ take b (drop a xs)
  take-add zero b c xs e = let same : c ≡ b = omega arith in rw same refl
  take-add (suc a) b c [] e = take-nil c ∙ sym (take-nil b)
  take-add (suc a) b zero (x ∷ xs) e = absurd (omega arith)
  take-add (suc a) b (suc c) (x ∷ xs) e = ap (◌∷◌ x) (take-add a b c xs (omega arith))

  where_-hit :
      (test : A → Bool) (x : A) (xs : List A)
      → test x ≡ true
      → where_ test (x ∷ xs) ≡ x ∷ where_ test xs
  where_-hit test x xs h = rw h refl

  where_-miss :
      (test : A → Bool) (x : A) (xs : List A)
      → test x ≡ false
      → where_ test (x ∷ xs) ≡ where_ test xs
  where_-miss test x xs h = rw h refl

  where_-all : (test : A → Bool) (xs : List A) → All (λ x. test x ≡ true) xs → where_ test xs ≡ xs
  where_-all test [] h = refl
  where_-all test (x ∷ xs) h = rw h.0 (ap (◌∷◌ x) (where_-all test xs h.1))

all_true : {A : Type 0} (xs : List A) → All (λ _. ◌≡◌ {A = Bool} true true) xs
all_true [] = tt
all_true (x ∷ xs) = (refl, all_true xs)

-- The last key of a page, or the one before it.
abbrev pub last_key : {B : Type 0} → (B → ℕ) → Option ℕ → List B → Option ℕ
last_key key after [] = after
last_key key after (x ∷ xs) = last_key key (some (key x)) xs

module _ {A : Type 0} (key : A → ℕ) where
  is_after-less :
      (after : Option ℕ) (a b : ℕ) → is_after after a ≡ true → a < b → is_after after b ≡ true
  is_after-less none a b h l = refl
  is_after-less (some k) a b h l = ground arith

  not_after :
      (after : Option ℕ) (a b : ℕ) → is_after after a ≡ false → is_after after b ≡ true → a < b
  not_after none a b h k = cc h
  not_after (some k) a b h l = ground arith

  -- What comes after the first of the rows that are left.
  after_first :
      (after : Option ℕ) (l : List A) {x : A} {rest : List A}
      → Ascending key l
      → where_ (λ r. is_after after (key r)) l ≡ x ∷ rest
      → where_ (λ r. is_after (some (key x)) (key r)) l ≡ rest
  after_first after [] h e = cc e
  after_first after (o ∷ l) {x} {rest} h e = elim (Bool-cases (is_after after (key o))) [
    | inl y ↦
        let later =
          where_-all (λ r. is_after after (key r)) l
            (All-map_imp _ _ (λ z (k : key o < key z). is_after-less after (key o) (key z) y k) l
              h.0) in
        let head : o ≡ x = cc (rw y at e) in
        let tail : l ≡ rest = cc (later, rw y at e) in
        subst (λ (z : A). where_ (λ r. is_after (some (key z)) (key r)) (o ∷ l) ≡ rest) head
          (let self : ltb (key o) (key o) ≡ false = ground arith in
            rw self (
              where_-all (λ r. is_after (some (key o)) (key r)) l
                (All-map_imp _ _ (λ z (k : key o < key z). ground (arith, k)) l h.0)
              ∙ tail))
    | inr n ↦
        let e' : where_ (λ r. is_after after (key r)) l ≡ x ∷ rest = rw n at e in
        let found =
          subst (All (λ r. is_after after (key r) ≡ true)) e'
            (where_-test (λ r. is_after after (key r)) l) in
        let less = not_after after (key o) (key x) n found.0 in
        let skip : ltb (key x) (key o) ≡ false = ground (arith, less) in
        rw skip (after_first after l h.1 e')
  ]

  -- What comes after a page.
  after_page :
      (k : ℕ) (after : Option ℕ) (l m : List A)
      → Ascending key l
      → where_ (λ r. is_after after (key r)) l ≡ m
      → where_ (λ r. is_after (last_key key after (take k m)) (key r)) l ≡ drop k m
  after_page zero after l m h e = e
  after_page (suc k) after l [] h e = e
  after_page (suc k) after l (x ∷ m) h e =
      after_page k (some (key x)) l m h (after_first after l h e)

module _ {A B E : Type 0} (read : A → Result B E) where
  -- Each row that was collected could be read.
  pub collect-cons :
      (x : A) (l : List A) {vs : List B}
      → collect read (x ∷ l) ≡ ok vs
      → (v : B) × (ws : List B) × (read x ≡ ok v) × (collect read l ≡ ok ws) × (vs ≡ v ∷ ws)
  collect-cons x l e =
      let (v, first, rest) = >>=-eq-ok (read x) _ e in
      let (ws, others, last) = >>=-eq-ok (collect read l) _ rest in
      (v, ws, first, others, sym (ok-injective last))

  collect-ok :
      (x : A) (l : List A) {v : B} {ws : List B}
      → read x ≡ ok v
      → collect read l ≡ ok ws
      → collect read (x ∷ l) ≡ ok (v ∷ ws)
  collect-ok x l first others = rw (first, others) refl

  -- A selection of the rows is read as a selection of what they are read as.
  pub collect-where_ :
      (test : A → Bool) (test' : B → Bool) (l : List A) {vs : List B}
      → ((x : A) (v : B) → read x ≡ ok v → test' v ≡ test x)
      → collect read l ≡ ok vs
      → collect read (where_ test l) ≡ ok (where_ test' vs)
  collect-where_ test test' [] agree e = rw (← ok-injective e) refl
  collect-where_ test test' (x ∷ l) agree e =
      let (v, ws, first, others, same) = collect-cons x l e in
      let rest = collect-where_ test test' l agree others in
      let t = agree x v first in
      elim (Bool-cases (test x)) [
        | inl y ↦
            ap (collect read) (where_-hit test x l y)
            ∙ collect-ok x (where_ test l) first rest
            ∙ ap ok (sym (ap (where_ test') same ∙ where_-hit test' v ws (t ∙ y)))
        | inr n ↦
            ap (collect read) (where_-miss test x l n)
            ∙ rest
            ∙ ap ok (sym (ap (where_ test') same ∙ where_-miss test' v ws (t ∙ n)))
      ]

  -- What each row is read as, from what holds of the rows.
  pub collect-All :
      (P : A → Type 0) (Q : B → Type 0) (l : List A) {vs : List B}
      → ((x : A) (v : B) → P x → read x ≡ ok v → Q v)
      → All P l
      → collect read l ≡ ok vs
      → All Q vs
  collect-All P Q [] f h e = rw (← ok-injective e) tt
  collect-All P Q (x ∷ l) f h e =
      let (v, ws, first, others, same) = collect-cons x l e in
      subst (All Q) (sym same) (f x v h.0 first, collect-All P Q l f h.1 others)

  pub collect-Pairwise :
      (key : A → ℕ) (key' : B → ℕ) (l : List A) {vs : List B}
      → ((x : A) (v : B) → read x ≡ ok v → key' v ≡ key x)
      → DistinctKeys key l
      → collect read l ≡ ok vs
      → DistinctKeys key' vs
  collect-Pairwise key key' [] agree d e = rw (← ok-injective e) tt
  collect-Pairwise key key' (x ∷ l) agree d e =
      let (v, ws, first, others, same) = collect-cons x l e in
      subst (DistinctKeys key') (sym same) (
        collect-All (λ y. key x ≢ key y) (λ w. key' v ≢ key' w) l
            (λ y w ne e' eq. ne (sym (agree x v first) ∙ eq ∙ agree y w e')) d.0 others,
        collect-Pairwise key key' l agree d.1 others,
      )

  collect-take :
      (k : ℕ) (l : List A) {vs : List B}
      → collect read l ≡ ok vs
      → collect read (take k l) ≡ ok (take k vs)
  collect-take zero l e = refl
  collect-take (suc k) [] e = rw (← ok-injective e) refl
  collect-take (suc k) (x ∷ l) e =
      let (v, ws, first, others, same) = collect-cons x l e in
      rw same (rw (first, collect-take k l others) refl)

  collect-drop :
      (k : ℕ) (l : List A) {vs : List B}
      → collect read l ≡ ok vs
      → collect read (drop k l) ≡ ok (drop k vs)
  collect-drop zero l e = e
  collect-drop (suc k) [] e = rw (← ok-injective e) refl
  collect-drop (suc k) (x ∷ l) e =
      let (v, ws, first, others, same) = collect-cons x l e in rw same (collect-drop k l others)

  -- The last id of a page is that of its last row.
  last_key-collect :
      (key : A → ℕ) (key' : B → ℕ) (after : Option ℕ) (l : List A) {vs : List B}
      → ((x : A) (v : B) → read x ≡ ok v → key' v ≡ key x)
      → collect read l ≡ ok vs
      → last_key key' after vs ≡ last_key key after l
  last_key-collect key key' after [] agree e = rw (← ok-injective e) refl
  last_key-collect key key' after (x ∷ l) agree e =
      let (v, ws, first, others, same) = collect-cons x l e in
      ap (last_key key' after) same
      ∙ ap (λ k. last_key key' (some k) ws) (agree x v first)
      ∙ last_key-collect key key' (some (key x)) l agree others

-- A number of pages, one after the other, by a function that reads a page.
abbrev pub read_pages :
    {B E : Type 0} → (B → ℕ) → (Option ℕ → Result (List B) E) → ℕ → Option ℕ → Result (List B) E
read_pages key read_page zero after = ok []
read_pages key read_page (suc n) after = do
  rows ← read_page after
  rest ← read_pages key read_page n (last_key key after rows)
  ok (rows ++ rest)

module _ {A B E : Type 0} (read : A → Result B E) (key : A → ℕ) (key' : B → ℕ) where
  pages_from :
      (n limit : ℕ) (after : Option ℕ) (rows : List A) {vs : List B}
      → ((x : A) (v : B) → read x ≡ ok v → key' v ≡ key x)
      → DistinctKeys key rows
      → collect read (where_ (λ r. is_after after (key r)) (order_by key rows)) ≡ ok vs
      → read_pages key' (λ a. collect read (page key a limit rows)) n after
        ≡ ok (take (n * limit) vs)
  unfolding page
  pages_from zero limit after rows agree d e =
      let none_read : 0 * limit ≡ 0 = omega arith in rw none_read refl
  pages_from (suc n) limit after rows {vs} agree d e =
      let l = order_by key rows in
      let m = where_ (λ r. is_after after (key r)) l in
      let first =
        ap (λ x. collect read (take limit x))
          (sym (where_-order_by key (λ r. is_after after (key r)) rows d))
        ∙ collect-take read limit m e in
      let next =
        last_key-collect read key key' after (take limit m) agree (collect-take read limit m e) in
      let left = after_page key limit after l m (order_by-Ascending key rows d) refl in
      let rest =
        pages_from n limit (last_key key after (take limit m)) rows agree d
          (ap (collect read) left ∙ collect-drop read limit m e) in
      rw first (
        rw next (
          rw rest (ap ok (sym (take-add limit (n * limit) (suc n * limit) vs (one_more n limit))))))

-- A number of pages, one after the other, are so many rows of the whole list.
pub read_pages-take :
    {A B E : Type 0} (read : A → Result B E) (key : A → ℕ) (key' : B → ℕ) (n limit : ℕ)
    (rows : List A) {vs : List B}
    → ((x : A) (v : B) → read x ≡ ok v → key' v ≡ key x)
    → DistinctKeys key rows
    → collect read (order_by key rows) ≡ ok vs
    → read_pages key' (λ a. collect read (page key a limit rows)) n none ≡ ok (take (n * limit) vs)
read_pages-take read key key' n limit rows agree d e =
    pages_from read key key' n limit none rows agree d (
      ap (collect read) (where_-all (λ r. true) (order_by key rows) (all_true (order_by key rows)))
      ∙ e)
