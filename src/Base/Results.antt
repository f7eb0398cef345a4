-- ===== src/Base/Results.antt =====
-- `Result<A, E>` with its `?` operator.
use mathlib.Core.Path.{◌≡◌, refl}
use mathlib.Core.Logic.{◌⊎◌, inl, inr}

pub data Result {ℓ κ} (A : Type ℓ) (E : Type κ) : Type (ℓ ⊔ κ) where
  ok : A → Result A E
  err : E → Result A E

infixl 5 ◌>>=◌ ◌>>◌
abbrev pub ◌>>=◌ {ℓ ℓ' κ} :
    {E : Type κ} {A : Type ℓ} {B : Type ℓ'} → Result A E → (A → Result B E) → Result B E
err fault >>= step = err fault
ok value >>= step = step value

-- A call whose value is not used.
abbrev pub ◌>>◌ {ℓ κ} : {E : Type κ} {B : Type ℓ} → Result (Unit {0}) E → Result B E → Result B E
first >> rest = first >>= (λ _. rest)

-- `map_err`, and what `?` does through a `From` conversion of the error.
abbrev pub map_err {ℓ κ κ'} :
    {A : Type ℓ} {E : Type κ} {F : Type κ'} → (E → F) → Result A E → Result A F
map_err f (ok a) = ok a
map_err f (err e) = err (f e)

module _ {ℓ ℓ' κ} {A : Type ℓ} {B : Type ℓ'} {E : Type κ} where
  pub >>=-eq-ok :
      (first : Result A E) (step : A → Result B E) {last : B}
      → first >>= step ≡ ok last
      → (value : A) × (first ≡ ok value) × (step value ≡ ok last)
  >>=-eq-ok (err fault) step worked = cc
  >>=-eq-ok (ok value) step worked = (value, refl, worked)

module _ {ℓ κ} {A : Type ℓ} {E : Type κ} where
  pub Result-cases : (m : Result A E) → ((a : A) × (m ≡ ok a)) ⊎ ((e : E) × (m ≡ err e))
  Result-cases (ok a) = inl (a, refl)
  Result-cases (err e) = inr (e, refl)

  pub ok-injective : {a b : A} → ◌≡◌ {A = Result A E} (ok a) (ok b) → a ≡ b
  ok-injective h = cc h
