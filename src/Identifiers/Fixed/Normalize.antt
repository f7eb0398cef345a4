-- ===== src/Identifiers/Fixed/Normalize.antt =====
-- What `normalize` does whatever the length and the errors are.
use valqeron.Base.{
  ℕ, ◌+◌, ◌≡◌, ◌≢◌, refl, ap, ◌∙◌, true, false, [], ◌∷◌, ◌++◌, map, arith, ◌==◌, Bool-cases, inl,
  inr, length, All, All-map_imp, length-map, ok, >>=-eq-ok, ok-injective, subst, ==_iff,
}
use valqeron.Text.{
  Text, Bytes, is_ascii, to_ascii_uppercase, is_whitespace, IsWhitespace, IsInk, trim, trim_padded,
  trim-IsInk, trim-map, to_ascii_uppercase-is_ascii, to_ascii_uppercase_idem,
  to_ascii_uppercase_other,
}
use valqeron.Identifiers.Common.{InClass, alphanumeric}
use valqeron.Identifiers.Fixed.Defs.{fill, normalize}

-- A byte that `normalize` leaves alone: no white space, no lower case, ASCII.
pub record IsCanonical (c : ℕ) : Type 0 where
  pub ink : is_whitespace c ≡ false
  pub upper : to_ascii_uppercase c ≡ c
  pub ascii : is_ascii c ≡ true

-- What `normalize` leaves in an array.
pub record IsUpper (c : ℕ) : Type 0 where
  pub upper : to_ascii_uppercase c ≡ c
  pub ascii : is_ascii c ≡ true

module _ {ℓ} {E : Type ℓ} (invalid : ℕ → ℕ → E) where
  pub fill-IsCanonical : (i : ℕ) (s : Text) → All IsCanonical s → fill invalid i s ≡ ok s
  unfolding fill
  fill-IsCanonical i [] h = refl
  fill-IsCanonical i (c ∷ s) h =
      rw (h.0.ascii, fill-IsCanonical (i + 1) s h.1) (ap (λ x. ok (x ∷ s)) h.0.upper)

  pub fill-map : (i : ℕ) (s : Text) → fill invalid i (map to_ascii_uppercase s) ≡ fill invalid i s
  unfolding fill
  fill-map i [] = refl
  fill-map i (c ∷ s) = elim (Bool-cases (is_ascii c)) [
    | inl plain ↦
        rw (to_ascii_uppercase-is_ascii, plain, fill-map (i + 1) s, to_ascii_uppercase_idem)
    | inr other ↦ rw (to_ascii_uppercase-is_ascii, other, to_ascii_uppercase_other c other)
  ]

  pub length-fill : (i : ℕ) (s : Text) (b : Bytes) → fill invalid i s ≡ ok b → length b ≡ length s
  unfolding fill
  length-fill i [] b e = ground arith
  length-fill i (c ∷ s) b e = elim (Bool-cases (is_ascii c)) [
    | inl plain ↦
        let (r, e', last) =
          >>=-eq-ok (fill invalid (i + 1) s) (λ r. ok (to_ascii_uppercase c ∷ r)) (rw plain at e) in
        ground (arith, length-fill (i + 1) s r e')
    | inr other ↦ cc (rw other at e)
  ]

  pub fill-IsUpper : (i : ℕ) (s : Text) (b : Bytes) → fill invalid i s ≡ ok b → All IsUpper b
  unfolding fill
  fill-IsUpper i [] b e = ground arith
  fill-IsUpper i (c ∷ s) b e = elim (Bool-cases (is_ascii c)) [
    | inl plain ↦
        let (r, e', last) =
          >>=-eq-ok (fill invalid (i + 1) s) (λ r. ok (to_ascii_uppercase c ∷ r)) (rw plain at e) in
        subst (All IsUpper) (ok-injective last) (
          record {
            upper = to_ascii_uppercase_idem c;
            ascii = to_ascii_uppercase-is_ascii c ∙ plain;
          },
          fill-IsUpper (i + 1) s r e',
        )
    | inr other ↦ cc (rw other at e)
  ]

  module _ (n : ℕ) (empty : E) (invalid_length : ℕ → E) where
    -- A canonical text of the right length is copied as it is.
    pub normalize-IsCanonical :
        (s : Text)
        → All IsCanonical s
        → length s ≡ n
        → s ≢ []
        → normalize n empty invalid_length invalid s ≡ ok s
    unfolding normalize
    normalize-IsCanonical [] h l ne = absurd (ne refl)
    normalize-IsCanonical (c ∷ s) h l ne =
        let t : trim (c ∷ s) ≡ c ∷ s =
          trim-IsInk (c ∷ s) (All-map_imp IsCanonical IsInk (λ x k. k.ink) (c ∷ s) h) in
        rw t (ground (arith, fill-IsCanonical 0 (c ∷ s) h))

    -- An array that `normalize` returns has the length asked for, and holds ASCII with no lower
    -- case.
    pub normalize-ok :
        (s : Text) {b : Bytes}
        → normalize n empty invalid_length invalid s ≡ ok b
        → (length b ≡ n) × All IsUpper b
    unfolding normalize
    normalize-ok [] e = cc
    normalize-ok (c ∷ s) {b} e = elim (Bool-cases (length (trim (c ∷ s)) == n)) [
      | inl fits ↦
          let e' : fill invalid 0 (trim (c ∷ s)) ≡ ok b = rw fits at e in
          (length-fill 0 (trim (c ∷ s)) b e' ∙ (==_iff _ n).0 fits, fill-IsUpper 0 _ b e')
      | inr off ↦ cc (rw off at e)
    ]

    -- White space around a text that is not empty, and the case of its ASCII letters, make no
    -- difference to the result, errors other than a character's own included.
    pub normalize_padded :
        (v s w : Text)
        → All IsWhitespace v
        → All IsWhitespace w
        → s ≢ []
        → normalize n empty invalid_length invalid (v ++ (s ++ w))
          ≡ normalize n empty invalid_length invalid s
    unfolding normalize
    normalize_padded v [] w h k ne = absurd (ne refl)
    normalize_padded [] (c ∷ s) w h k ne = rw (trim_padded [] (c ∷ s) w tt k)
    normalize_padded (d ∷ v) (c ∷ s) w h k ne = rw (trim_padded (d ∷ v) (c ∷ s) w h k)

    pub normalize-map :
        (s : Text)
        → normalize n empty invalid_length invalid (map to_ascii_uppercase s)
          ≡ normalize n empty invalid_length invalid s
    unfolding normalize
    normalize-map [] = refl
    normalize-map (c ∷ s) =
        rw (trim-map (c ∷ s), length-map to_ascii_uppercase (trim (c ∷ s)))
          (rw (fill-map 0 (trim (c ∷ s))) refl)

pub alphanumeric-IsCanonical : (c : ℕ) → InClass alphanumeric c → IsCanonical c
unfolding is_whitespace to_ascii_uppercase
alphanumeric-IsCanonical c h = record {
  ink = ground arith;
  upper = ground arith;
  ascii = ground arith;
}
