-- ===== src/Domain/Steps.antt =====
-- How the services of crates/core/src/domain call storage: a step takes the store and gives a result
-- and the store that is left; an error ends the chain. The type of stores is a parameter, for what
-- stands behind the repository traits.
use valqeron.Base.{
  ◌≡◌, ◌≢◌, ◌⊎◌, refl, Bool, true, false, ◌||◌, Option, none, some, List, [], ◌∷◌, Result, ok, err,
  map_err, All, inl, inr, ap, ◌∙◌, sym, subst, Bool-cases, Result-cases,
}

abbrev pub Step : Type 0 → Type 0 → Type 0 → Type 0
Step S E A = S → Result A E × S

module _ {S E : Type 0} where
  abbrev pub continue : {A B : Type 0} → Result A E × S → (A → Step S E B) → Result B E × S
  continue (ok a, s) f = f a s
  continue (err e, s) f = (err e, s)

  infixl 5 ◌>>=◌ ◌>>◌
  abbrev pub ◌>>=◌ : {A B : Type 0} → Step S E A → (A → Step S E B) → Step S E B
  (m >>= f) s = continue (m s) f

  abbrev pub ◌>>◌ : {A B : Type 0} → Step S E A → Step S E B → Step S E B
  m >> k = m >>= λ _. k

  abbrev pub done : Step S E (Unit {0})
  done s = (ok tt, s)

  -- `return Err(e)` where a test holds.
  abbrev pub reject_if : Bool → E → Step S E (Unit {0})
  reject_if true e s = (err e, s)
  reject_if false e s = (ok tt, s)

module _ {S E Fault : Type 0} where
  -- A call that reads the store, with `?`.
  abbrev pub query : {A : Type 0} → (Fault → E) → (S → Result A Fault) → Step S E A
  query storage q s = (map_err storage (q s), s)

  -- A call that writes the store, with `?`.
  abbrev pub command : {A : Type 0} → (Fault → E) → (S → Result A Fault × S) → Step S E A
  command storage c s = (map_err storage (c s).0, (c s).1)

  -- `if let Some(key) = o && exists(key)? { return Err(e) }`
  abbrev pub reject_found :
      {K : Type 0} → (Fault → E) → (K → S → Result Bool Fault) → Option K → E → Step S E (Unit {0})
  reject_found storage exists none e = done
  reject_found storage exists (some key) e =
      query storage (exists key) >>= λ found. reject_if found e

  -- A query and a test of its answer, with an early return.
  abbrev pub check :
      {A : Type 0} → (Fault → E) → (S → Result A Fault) → (A → Bool) → E → Step S E (Unit {0})
  check storage q test e = query storage q >>= λ a. reject_if (test a) e

-- A relation holds of every item and each later one.
abbrev pub Pairwise : {A : Type 0} → (A → A → Type 0) → List A → Type 0
Pairwise R [] = Unit
Pairwise R (x ∷ xs) = All (R x) xs × Pairwise R xs

-- Two keys, where both are set, are not the same.
abbrev pub Differ : {K : Type 0} → Option K → Option K → Type 0
Differ none p = Unit
Differ (some k) p = p ≢ some k

-- Some item satisfies a predicate.
abbrev pub Any : {A : Type 0} → (A → Type 0) → List A → Type 0
Any P [] = ⊥
Any P (x ∷ xs) = P x ⊎ Any P xs

module _ {A : Type 0} where
  -- A test holds of some item.
  abbrev pub any_of : (A → Bool) → List A → Bool
  any_of p [] = false
  any_of p (x ∷ xs) = p x || any_of p xs

  pub All-any_of :
      (p : A → Bool) (P : A → Type 0)
      → ((y : A) → P y → p y ≡ true)
      → (xs : List A) → any_of p xs ≡ false
      → All (λ y. ¬ P y) xs
  All-any_of p P f [] h = tt
  All-any_of p P f (x ∷ xs) h = elim (Bool-cases (p x)) [
    | inl y ↦ absurd (cc (rw y at h))
    | inr n ↦ (λ q. cc (f x q, n), All-any_of p P f xs (rw n at h))
  ]

  pub Any-any_of :
      (p : A → Bool) (P : A → Type 0)
      → ((y : A) → p y ≡ true → P y)
      → (xs : List A) → any_of p xs ≡ true
      → Any P xs
  Any-any_of p P f [] h = cc h
  Any-any_of p P f (x ∷ xs) h = elim (Bool-cases (p x)) [
    | inl y ↦ inl (f x y)
    | inr n ↦ inr (Any-any_of p P f xs (rw n at h))
  ]

-- Two keys are set and the same.
abbrev pub Shares : {K : Type 0} → Option K → Option K → Type 0
Shares none p = ⊥
Shares (some k) p = p ≡ some k

All-trivial : {A : Type 0} (xs : List A) → All (λ _. Unit {0}) xs
All-trivial [] = tt
All-trivial (x ∷ xs) = (tt, All-trivial xs)

-- The three ways a check on a key can go, given what a lookup tells of the items in the store.
pub reject_found-cases :
    {S E Fault K A B : Type 0} (storage : Fault → E) (exists : K → S → Result Bool Fault)
    (o : Option K) (e : E) (key : A → Option K) (items : List A) (k : Step S E B) (s : S)
    → ((c : K) → exists c s ≡ ok false → All (λ y. key y ≢ some c) items)
    → ((c : K) → exists c s ≡ ok true → Any (λ y. key y ≡ some c) items)
    → (((reject_found storage exists o e >> k) s ≡ k s) × All (λ y. Differ o (key y)) items)
      ⊎ (((reject_found storage exists o e >> k) s ≡ (err e, s))
          × Any (λ y. Shares o (key y)) items)
      ⊎ ((f : Fault) × ((reject_found storage exists o e >> k) s ≡ (err (storage f), s)))
reject_found-cases storage exists none e key items k s free taken = inl (refl, All-trivial items)
reject_found-cases storage exists (some c) e key items k s free taken =
    elim (Result-cases (exists c s)) [
      | inl (b, found) ↦ elim (Bool-cases b) [
        | inl y ↦ inr (inl (rw (found, y) refl, taken c (found ∙ ap ok y)))
        | inr n ↦ inl (rw (found, n) refl, free c (found ∙ ap ok n))
      ]
      | inr (f, failed) ↦ inr (inr (f, rw failed refl))
    ]

-- The three ways a check can go.
pub check-cases :
    {S E Fault A B : Type 0} (storage : Fault → E) (q : S → Result A Fault) (test : A → Bool)
    (e : E) (k : Step S E B) (s : S)
    → (((check storage q test e >> k) s ≡ k s) × (a : A) × (q s ≡ ok a) × (test a ≡ false))
      ⊎ (((check storage q test e >> k) s ≡ (err e, s)) × (a : A) × (q s ≡ ok a) × (test a ≡ true))
      ⊎ ((f : Fault) × ((check storage q test e >> k) s ≡ (err (storage f), s)))
check-cases storage q test e k s = elim (Result-cases (q s)) [
  | inl (a, found) ↦ elim (Bool-cases (test a)) [
    | inl y ↦ inr (inl (rw (found, y) refl, a, found, y))
    | inr n ↦ inl (rw (found, n) refl, a, found, n)
  ]
  | inr (f, failed) ↦ inr (inr (f, rw failed refl))
]

-- A property of what a check and the rest of the chain come to.
pub check-rule :
    {S E Fault A B : Type 0} (Q : Result B E × S → Type 0) (storage : Fault → E)
    (q : S → Result A Fault) (test : A → Bool) (e : E) (k : Step S E B) (s : S)
    → ((a : A) → q s ≡ ok a → test a ≡ false → Q (k s))
    → ((a : A) → q s ≡ ok a → test a ≡ true → Q (err e, s))
    → ((f : Fault) → Q (err (storage f), s))
    → Q ((check storage q test e >> k) s)
check-rule Q storage q test e k s next stop fault = elim (check-cases storage q test e k s) [
  | inl (p, a, found, n) ↦ subst Q (sym p) (next a found n)
  | inr (inl (p, a, found, y)) ↦ subst Q (sym p) (stop a found y)
  | inr (inr (f, p)) ↦ subst Q (sym p) (fault f)
]

pub command-rule :
    {S E Fault A : Type 0} (Q : Result A E × S → Type 0) (storage : Fault → E)
    (c : S → Result A Fault × S) (s : S)
    → ((a : A) → (c s).0 ≡ ok a → Q (ok a, (c s).1))
    → ((f : Fault) → (c s).0 ≡ err f → Q (err (storage f), (c s).1))
    → Q (command storage c s)
command-rule {S} {E} {Fault} {A} Q storage c s worked failed = elim (Result-cases (c s).0) [
  | inl (a, p) ↦ subst (λ (r : Result A Fault). Q (map_err storage r, (c s).1)) (sym p) (worked a p)
  | inr (f, p) ↦ subst (λ (r : Result A Fault). Q (map_err storage r, (c s).1)) (sym p) (failed f p)
]
