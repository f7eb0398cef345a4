-- ===== src/Identifiers/Cfi/Tables.antt =====
-- The tables of cfi.rs, said apart from how they are searched: entries with their codes, and masks of
-- letters.
use native.Mathlib.Nat.{mul-add-div, div-eq_of_lt, div-add-mod, mod-lt, one-le-pow}
use valqeron.Base.{
  ℕ, ◌+◌, ◌*◌, ◌/◌, ◌%◌, ◌^◌, ◌≤◌, ◌<◌, ◌≡◌, ◌≢◌, ◌↔◌, inl, inr, refl, sym, ap, ◌∙◌, true, ◌==◌,
  ==_iff, List, [], ◌∷◌, some, All, Bool-cases, arith, sub8,
}
use valqeron.Domain.Steps.{Pairwise, Any}
use valqeron.Identifiers.Cfi.Defs.{search_by_key, attr_allows}

module _ {A : Type 0} (key : A → ℕ) (k : ℕ) (P : A → Type 0) where
  -- An entry of the key that satisfies a predicate.
  abbrev pub Entry : A → Type 0
  Entry x = (key x ≡ k) × P x

  pub search-Any : (l : List A) {x : A} → search_by_key key k l ≡ some x → P x → Any Entry l
  search-Any [] h p = cc h
  search-Any (y ∷ l) {x} h p = elim (Bool-cases (key y == k)) [
    | inl same ↦
        let found : x ≡ y = cc (rw same at h) in inl ((==_iff (key y) k).0 same, rw (sym found) p)
    | inr other ↦ inr (search-Any l (rw other at h) p)
  ]

  -- An entry whose key none has is not there.
  absent : (j : ℕ) → j ≡ k → (l : List A) → All (λ y. j ≢ key y) l → Any Entry l → ⊥
  absent j e [] free h = h
  absent j e (y ∷ l) free (inl (same, p)) = free.0 (e ∙ sym same)
  absent j e (y ∷ l) free (inr later) = absent j e l free.1 later

  pub Any-search :
      (l : List A)
      → Pairwise (λ x y. key x ≢ key y) l
      → Any Entry l
      → (x : A) × (search_by_key key k l ≡ some x) × P x
  Any-search [] d h = absurd h
  Any-search (y ∷ l) d h = elim (Bool-cases (key y == k)) [
    | inl same ↦ elim h [
      | inl (e, p) ↦ (y, rw same refl, p)
      | inr later ↦ absurd (absent (key y) ((==_iff (key y) k).0 same) l d.0 later)
    ]
    | inr other ↦ elim h [
      | inl (e, p) ↦ absurd (cc (other, (==_iff (key y) k).1 e))
      | inr later ↦ let (x, found, p) = Any-search l d.1 later in (x, rw other found, p)
    ]
  ]

-- A letter is among those of a mask: the bit of its place in the alphabet is set.
abbrev pub HasLetter : ℕ → ℕ → Type 0
HasLetter mask code =
    (place : ℕ) × (high : ℕ) × (low : ℕ) × (code ≡ b'A' + place)
    × (mask ≡ 2 ^ place * (2 * high + 1) + low)
    × (low < 2 ^ place)

bit_set : (mask m : ℕ) → 0 < m → (mask / m) % 2 ≡ 1 → mask ≡ m * (2 * (mask / m / 2) + 1) + mask % m
bit_set mask m pos h =
    let odd : mask / m ≡ 2 * (mask / m / 2) + 1 = omega (arith, h) in
    sym (div-add-mod mask m) ∙ ap (λ q. m * q + mask % m) odd

set_bit : (m high low : ℕ) → 0 < m → low < m → ((m * (2 * high + 1) + low) / m) % 2 ≡ 1
set_bit m high low pos lt =
    let q = mul-add-div pos (2 * high + 1) low in let z = div-eq_of_lt lt in omega (arith, q, z)

pub attr_allows_iff :
    (mask code : ℕ)
    → b'A' ≤ code
    → code < 256
    → (attr_allows mask code ≡ true) ↔ HasLetter mask code
unfolding attr_allows
attr_allows_iff mask code ge lt =
    let place = sub8 code b'A' in
    let pos : 0 < 2 ^ place = omega (arith, one-le-pow place 2 (omega arith)) in
    (
      λ e. (
        place,
        mask / 2 ^ place / 2,
        mask % 2 ^ place,
        omega arith,
        bit_set mask (2 ^ place) pos ((==_iff ((mask / 2 ^ place) % 2) 1).0 e),
        mod-lt mask pos,
      ),
      λ (p, high, low, c, m, l).
          let same : place ≡ p = omega (arith, c) in
          (==_iff ((mask / 2 ^ place) % 2) 1).1
            (rw (same, m) (set_bit (2 ^ p) high low (rw (sym same) pos) l)),
    )
