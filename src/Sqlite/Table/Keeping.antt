-- ===== src/Sqlite/Table/Keeping.antt =====
-- What the statements that write a table keep of its rows, two by two and one by one.
use valqeron.Base.{
  ℕ, ◌≡◌, ◌≢◌, inl, inr, sym, ◌∙◌, subst, Bool, true, ◌==◌, ==_iff, List, [], ◌∷◌, all, All,
  All-map_imp, Bool-cases,
}
use valqeron.Domain.Steps.{Pairwise, Any}
use valqeron.Sqlite.Sql.{update_where, delete_where}
use valqeron.Sqlite.Table.{Table, guard}
use valqeron.Sqlite.Table.Find.{Distinct, count-none, find-All, update-none}

module _ {A : Type 0} where
  pub all-All : (p : A → Bool) (xs : List A) → all p xs ≡ true → All (λ x. p x ≡ true) xs
  all-All p [] h = tt
  all-All p (x ∷ xs) h = elim (Bool-cases (p x)) [
    | inl y ↦ (y, all-All p xs (rw y at h))
    | inr n ↦ absurd (cc (rw n at h))
  ]

  pub All-both :
      {P Q W : A → Type 0} (xs : List A)
      → ((x : A) → P x → Q x → W x)
      → All P xs
      → All Q xs
      → All W xs
  All-both [] f h k = tt
  All-both (x ∷ xs) f h k = (f x h.0 k.0, All-both xs f h.1 k.1)

  pub All-swap :
      {B : Type 0} (P : A → Type 0) (Q : A → B → Type 0) (xs : List A) (ys : List B)
      → All (λ x. P x → All (Q x) ys) xs
      → All (λ y. All (λ x. P x → Q x y) xs) ys
  All-swap P Q xs [] h = tt
  All-swap P Q xs (y ∷ ys) h = (
    All-map_imp _ _ (λ x k p. (k p).0) xs h,
    All-swap P Q xs ys (All-map_imp _ _ (λ x k p. (k p).1) xs h),
  )

  pub All-delete :
      (P : A → Type 0) (test : A → Bool) (xs : List A) → All P xs → All P (delete_where test xs)
  All-delete P test [] h = tt
  All-delete P test (x ∷ xs) h = elim (Bool-cases (test x)) [
    | inl y ↦ rw y (All-delete P test xs h.1)
    | inr n ↦ rw n (h.0, All-delete P test xs h.1)
  ]

  pub Pairwise-delete :
      (Rel : A → A → Type 0) (test : A → Bool) (xs : List A)
      → Pairwise Rel xs
      → Pairwise Rel (delete_where test xs)
  Pairwise-delete Rel test [] h = tt
  Pairwise-delete Rel test (x ∷ xs) h = elim (Bool-cases (test x)) [
    | inl y ↦ rw y (Pairwise-delete Rel test xs h.1)
    | inr n ↦ rw n (All-delete (Rel x) test xs h.0, Pairwise-delete Rel test xs h.1)
  ]

  -- What holds of the rows that are not changed, and of those that are once they are.
  pub All-update :
      (P : A → Type 0) (test : A → Bool) (change : A → A) (xs : List A)
      → All P xs
      → All (λ x. test x ≡ true → P (change x)) xs
      → All P (update_where test change xs)
  All-update P test change [] h k = tt
  All-update P test change (x ∷ xs) h k = elim (Bool-cases (test x)) [
    | inl y ↦ rw y (k.0 y, All-update P test change xs h.1 k.1)
    | inr n ↦ rw n (h.0, All-update P test change xs h.1 k.1)
  ]

  pub Any-update :
      (P : A → Type 0) (test : A → Bool) (change : A → A) (xs : List A)
      → ((x : A) → P x → P (change x))
      → Any P xs
      → Any P (update_where test change xs)
  Any-update P test change [] f h = absurd h
  Any-update P test change (x ∷ xs) f h = elim (Bool-cases (test x)) [
    | inl y ↦ rw y (elim h [
      | inl here ↦ inl (f x here)
      | inr there ↦ inr (Any-update P test change xs f there)
    ])
    | inr n ↦
        rw n
          (elim h [ inl here ↦ inl here | inr there ↦ inr (Any-update P test change xs f there) ])
  ]

  -- A row that is there stays, where the statement does not delete it.
  pub Any-delete :
      (P : A → Type 0) (test : A → Bool) (xs : List A)
      → All (λ x. test x ≡ true → ¬ P x) xs
      → Any P xs
      → Any P (delete_where test xs)
  Any-delete P test [] k h = absurd h
  Any-delete P test (x ∷ xs) k h = elim (Bool-cases (test x)) [
    | inl y ↦
        rw y
          (elim h [ inl here ↦ absurd (k.0 y here) | inr there ↦ Any-delete P test xs k.1 there ])
    | inr n ↦
        rw n (elim h [ inl here ↦ inl here | inr there ↦ inr (Any-delete P test xs k.1 there) ])
  ]

module _ {T R : Type 0} (table : Table T R) where
  pub guard-id : (id version : ℕ) (r : R) → guard table id version r ≡ true → table.id_of r ≡ id
  guard-id id version r h = elim (Bool-cases (table.id_of r == id)) [
    | inl y ↦ (==_iff (table.id_of r) id).0 y
    | inr n ↦ absurd (cc (rw n at h))
  ]

  -- A changed row has been held against the rows of other ids.
  abbrev pub Admitted : (R → R → Type 0) → ℕ → ℕ → (R → R) → List R → List R → Type 0
  Admitted Rel id version change rows all_rows =
      All
        (λ r.
          guard table id version r ≡ true
          → All (λ o. table.id_of o ≢ id → Rel (change r) o) all_rows)
        rows

  -- A row that is not changed stands with those that are.
  beside-update :
      (Rel : R → R → Type 0) (id version : ℕ) (change : R → R) (x : R) (rows all_rows : List R)
      → ((a b : R) → Rel a b → Rel b a)
      → All (Rel x) rows
      → All (λ y. table.id_of x ≢ table.id_of y) rows
      → Admitted Rel id version change rows (x ∷ all_rows)
      → All (Rel x) (update_where (guard table id version) change rows)
  beside-update Rel id version change x [] all_rows flip h d k = tt
  beside-update Rel id version change x (y ∷ rows) all_rows flip h d k =
      let rest = beside-update Rel id version change x rows all_rows flip h.1 d.1 k.1 in
      elim (Bool-cases (guard table id version y)) [
        | inl g ↦
            rw g
              (flip (change y) x ((k.0 g).0 (λ e. d.0 (e ∙ sym (guard-id id version y g)))), rest)
        | inr n ↦ rw n (h.0, rest)
      ]

  tail-Admitted :
      (Rel : R → R → Type 0) (id version : ℕ) (change : R → R) (x : R) (rows all_rows : List R)
      → Admitted Rel id version change rows (x ∷ all_rows)
      → Admitted Rel id version change rows all_rows
  tail-Admitted Rel id version change x rows all_rows h = All-map_imp _ _ (λ r k g. (k g).1) rows h

  -- Where ids are distinct and the changed row stands with the rows of other ids, the rows still
  -- stand two by two.
  pub Pairwise-update :
      (Rel : R → R → Type 0) (id version : ℕ) (change : R → R) (rows : List R)
      → ((a b : R) → Rel a b → Rel b a)
      → Distinct table rows
      → Pairwise Rel rows
      → Admitted Rel id version change rows rows
      → Pairwise Rel (update_where (guard table id version) change rows)
  Pairwise-update Rel id version change [] flip d h k = tt
  Pairwise-update Rel id version change (x ∷ rows) flip d h k =
      elim (Bool-cases (guard table id version x)) [
        | inl g ↦
            let same = guard-id id version x g in
            let left =
              update-none table id version change rows
                (count-none table id version rows (find-All table id rows (rw same at d.0))) in
            let beside =
              All-both rows
                (λ o (f : table.id_of o ≢ id → Rel (change x) o) ne. f (λ e. ne (same ∙ sym e)))
                ((k.0 g).1) d.0 in
            rw (g, left) (beside, h.1)
        | inr n ↦ rw n (
          beside-update Rel id version change x rows rows flip h.0 d.0 k.1,
          Pairwise-update Rel id version change rows flip d.1 h.1
              (tail-Admitted Rel id version change x rows rows k.1),
        )
      ]

  -- Ids stay distinct, where the change keeps them.
  ids-update :
      (test : R → Bool) (change : R → R) (rows : List R) (x : R)
      → ((r : R) → table.id_of (change r) ≡ table.id_of r)
      → All (λ y. table.id_of x ≢ table.id_of y) rows
      → All (λ y. table.id_of x ≢ table.id_of y) (update_where test change rows)
  ids-update test change rows x keeps h =
      All-update (λ y. table.id_of x ≢ table.id_of y) test change rows h
        (All-map_imp _ _ (λ y ne t e. ne (e ∙ keeps y)) rows h)

  pub Distinct-update :
      (test : R → Bool) (change : R → R) (rows : List R)
      → ((r : R) → table.id_of (change r) ≡ table.id_of r)
      → Distinct table rows
      → Distinct table (update_where test change rows)
  Distinct-update test change [] keeps d = tt
  Distinct-update test change (x ∷ rows) keeps d =
      let rest = Distinct-update test change rows keeps d.1 in
      let beside = ids-update test change rows x keeps d.0 in
      elim (Bool-cases (test x)) [
        | inl y ↦ rw y (
          subst (λ (i : ℕ). All (λ y. i ≢ table.id_of y) (update_where test change rows))
              (sym (keeps x)) beside,
          rest,
        )
        | inr n ↦ rw n (beside, rest)
      ]
