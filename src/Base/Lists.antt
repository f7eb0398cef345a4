-- ===== src/Base/Lists.antt =====
-- Lists measured and indexed by native numbers, under the library's names.
use Prim.Native.Nat.{ℕ, zero, suc, ◌+◌}
use mathlib.Core.Path.{◌≡◌, refl, ap}
use mathlib.Core.Logic.{◌≢◌}
use mathlib.Core.Bool.{Bool, true, false, ◌&&◌}
use mathlib.Core.List.{List, [], ◌∷◌, ◌++◌, map, reverse}
use mathlib.Core.List.{reverse-append}
use mathlib.Core.Option.{Option, none, some}
use native.Mathlib.Omega.{arith}

module _ {ℓ} {A : Type ℓ} where
  abbrev pub length : List A → ℕ
  length [] = 0
  length (x ∷ xs) = suc (length xs)

  abbrev pub get_elem? : List A → ℕ → Option A
  get_elem? [] i = none
  get_elem? (x ∷ xs) zero = some x
  get_elem? (x ∷ xs) (suc i) = get_elem? xs i

  abbrev pub get_or : List A → ℕ → A → A
  get_or [] i d = d
  get_or (x ∷ xs) zero d = x
  get_or (x ∷ xs) (suc i) d = get_or xs i d

  abbrev pub take : ℕ → List A → List A
  take zero xs = []
  take (suc n) [] = []
  take (suc n) (x ∷ xs) = x ∷ take n xs

  abbrev pub drop : ℕ → List A → List A
  drop zero xs = xs
  drop (suc n) [] = []
  drop (suc n) (x ∷ xs) = drop n xs

  -- A write out of bounds changes nothing.
  abbrev pub set : List A → ℕ → A → List A
  set [] i v = []
  set (x ∷ xs) zero v = v ∷ xs
  set (x ∷ xs) (suc i) v = x ∷ set xs i v

  abbrev pub replicate : ℕ → A → List A
  replicate zero a = []
  replicate (suc n) a = a ∷ replicate n a

  abbrev pub is_empty : List A → Bool
  is_empty [] = true
  is_empty (x ∷ xs) = false

  abbrev pub all : (A → Bool) → List A → Bool
  all p [] = true
  all p (x ∷ xs) = p x && all p xs

  pub length-append : (xs ys : List A) → length (xs ++ ys) ≡ length xs + length ys
  length-append [] ys = omega arith
  length-append (x ∷ xs) ys = omega (arith, length-append xs ys)

  pub take-append-drop : (n : ℕ) (xs : List A) → take n xs ++ drop n xs ≡ xs
  take-append-drop zero xs = refl
  take-append-drop (suc n) [] = refl
  take-append-drop (suc n) (x ∷ xs) = ap (◌∷◌ x) (take-append-drop n xs)

module _ {ℓ κ} {A : Type ℓ} where
  -- Every item satisfies a predicate; computes to a tuple.
  abbrev pub All : (A → Type κ) → List A → Type κ
  All P [] = Unit
  All P (x ∷ xs) = P x × All P xs

  pub All-append : (P : A → Type κ) (xs ys : List A) → All P xs → All P ys → All P (xs ++ ys)
  All-append P [] ys h k = k
  All-append P (x ∷ xs) ys h k = (h.0, All-append P xs ys h.1 k)

  pub All-map_imp : (P Q : A → Type κ) → ((x : A) → P x → Q x) → (xs : List A) → All P xs → All Q xs
  All-map_imp P Q f [] h = tt
  All-map_imp P Q f (x ∷ xs) h = (f x h.0, All-map_imp P Q f xs h.1)

module _ {ℓ} {A : Type ℓ} where
  pub length-map {κ} : {B : Type κ} (f : A → B) (xs : List A) → length (map f xs) ≡ length xs
  length-map f [] = refl
  length-map f (x ∷ xs) = ap suc (length-map f xs)

  pub length-reverse : (xs : List A) → length (reverse xs) ≡ length xs
  length-reverse [] = refl
  length-reverse (x ∷ xs) =
      rw (reverse-append (x ∷ []) xs)
        (omega (arith, length-append (reverse xs) (x ∷ []), length-reverse xs))

module _ {ℓ κ} {A : Type ℓ} where
  pub All-reverse : (P : A → Type κ) (xs : List A) → All P xs → All P (reverse xs)
  All-reverse P [] h = h
  All-reverse P (x ∷ xs) h =
      rw (reverse-append (x ∷ []) xs)
        (All-append P (reverse xs) (x ∷ []) (All-reverse P xs h.1) (h.0, tt))

module _ {ℓ} {A : Type ℓ} where
  pub take_of_append : (n : ℕ) (xs ys : List A) → length xs ≡ n → take n (xs ++ ys) ≡ xs
  take_of_append zero [] ys h = refl
  take_of_append zero (x ∷ xs) ys h = absurd (omega arith)
  take_of_append (suc n) [] ys h = absurd (omega arith)
  take_of_append (suc n) (x ∷ xs) ys h = ap (◌∷◌ x) (take_of_append n xs ys (omega arith))

  pub drop_of_append : (n : ℕ) (xs ys : List A) → length xs ≡ n → drop n (xs ++ ys) ≡ ys
  drop_of_append zero [] ys h = refl
  drop_of_append zero (x ∷ xs) ys h = absurd (omega arith)
  drop_of_append (suc n) [] ys h = absurd (omega arith)
  drop_of_append (suc n) (x ∷ xs) ys h = drop_of_append n xs ys (omega arith)

  pub get_or_of_append :
      (n : ℕ) (xs ys : List A) (d : A) → length xs ≡ n → get_or (xs ++ ys) n d ≡ get_or ys 0 d
  get_or_of_append zero [] ys d h = refl
  get_or_of_append zero (x ∷ xs) ys d h = absurd (omega arith)
  get_or_of_append (suc n) [] ys d h = absurd (omega arith)
  get_or_of_append (suc n) (x ∷ xs) ys d h = get_or_of_append n xs ys d (omega arith)

  pub get_elem?_of_append :
      (n : ℕ) (xs ys : List A) → length xs ≡ n → get_elem? (xs ++ ys) n ≡ get_elem? ys 0
  get_elem?_of_append zero [] ys h = refl
  get_elem?_of_append zero (x ∷ xs) ys h = absurd (omega arith)
  get_elem?_of_append (suc n) [] ys h = absurd (omega arith)
  get_elem?_of_append (suc n) (x ∷ xs) ys h = get_elem?_of_append n xs ys (omega arith)

  -- A list with a last item.
  pub split_last :
      (n : ℕ) (xs : List A)
      → length xs ≡ suc n
      → (front : List A) × (last : A) × (xs ≡ front ++ (last ∷ [])) × (length front ≡ n)
  split_last n [] h = absurd (omega arith)
  split_last zero (x ∷ []) h = ([], x, refl, refl)
  split_last zero (x ∷ y ∷ xs) h = absurd (omega arith)
  split_last (suc n) (x ∷ xs) h =
      let (front, last, e, l) = split_last n xs (omega arith) in
      (x ∷ front, last, ap (◌∷◌ x) e, omega arith)

module _ {ℓ κ} {A : Type ℓ} {B : Type κ} where
  pub map-ne-nil : (f : A → B) (xs : List A) → xs ≢ [] → map f xs ≢ []
  map-ne-nil f [] ne e = ne refl
  map-ne-nil f (x ∷ xs) ne e = cc e
