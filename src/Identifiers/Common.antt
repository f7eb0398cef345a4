-- ===== src/Identifiers/Common.antt =====
-- crates/core/src/identifiers/common.rs: what may stand at a place of an identifier.
use valqeron.Base.{
  ℕ, ◌≤◌, ◌⊎◌, ◌≡◌, ◌↔◌, List, [], ◌∷◌, ◌++◌, Bool, true, ◌||◌, arith, inl, inr, refl, length, All,
}
use valqeron.Text.{Bytes, is_ascii_digit, is_ascii_uppercase}

pub data CharacterClass : Type 0 where
  digit letter alphanumeric : CharacterClass

abbrev pub IsDigit : ℕ → Type 0
IsDigit c = (b'0' ≤ c) × (c ≤ b'9')

abbrev pub IsLetter : ℕ → Type 0
IsLetter c = (b'A' ≤ c) × (c ≤ b'Z')

-- The bytes of a class.
abbrev pub InClass : CharacterClass → ℕ → Type 0
InClass digit c = IsDigit c
InClass letter c = IsLetter c
InClass alphanumeric c = IsDigit c ⊎ IsLetter c

-- A byte string of a given format, with a class for each place.
abbrev pub Fits : List CharacterClass → Bytes → Type 0
Fits [] [] = Unit
Fits [] (b ∷ bs) = ⊥
Fits (k ∷ ks) [] = ⊥
Fits (k ∷ ks) (b ∷ bs) = InClass k b × Fits ks bs

-- The Boolean tests of the sources, by class.
abbrev pub in_class : CharacterClass → ℕ → Bool
in_class digit c = is_ascii_digit c
in_class letter c = is_ascii_uppercase c
in_class alphanumeric c = is_ascii_digit c || is_ascii_uppercase c

pub in_class_iff : (k : CharacterClass) (c : ℕ) → (in_class k c ≡ true) ↔ InClass k c
in_class_iff digit c = ground arith
in_class_iff letter c = ground arith
in_class_iff alphanumeric c = ground arith

pub InClass-alphanumeric : (k : CharacterClass) (c : ℕ) → InClass k c → InClass alphanumeric c
InClass-alphanumeric digit c h = inl h
InClass-alphanumeric letter c h = inr h
InClass-alphanumeric alphanumeric c h = h

pub Fits-alphanumeric :
    (ks : List CharacterClass) (bs : Bytes) → Fits ks bs → All (InClass alphanumeric) bs
Fits-alphanumeric [] [] h = tt
Fits-alphanumeric [] (b ∷ bs) h = absurd h
Fits-alphanumeric (k ∷ ks) [] h = absurd h
Fits-alphanumeric (k ∷ ks) (b ∷ bs) h = (InClass-alphanumeric k b h.0, Fits-alphanumeric ks bs h.1)

pub Fits-last :
    (ks : List CharacterClass) (k : CharacterClass) (bs : Bytes) (b : ℕ)
    → length ks ≡ length bs
    → Fits (ks ++ (k ∷ [])) (bs ++ (b ∷ []))
    → Fits ks bs × InClass k b
Fits-last [] k [] b l h = (tt, h.0)
Fits-last [] k (c ∷ bs) b l h = absurd (omega arith)
Fits-last (j ∷ ks) k [] b l h = absurd (omega arith)
Fits-last (j ∷ ks) k (c ∷ bs) b l h =
    let (front, last) = Fits-last ks k bs b (omega arith) h.1 in ((h.0, front), last)

pub length-Fits : (ks : List CharacterClass) (bs : Bytes) → Fits ks bs → length bs ≡ length ks
length-Fits [] [] h = refl
length-Fits [] (b ∷ bs) h = absurd h
length-Fits (k ∷ ks) [] h = absurd h
length-Fits (k ∷ ks) (b ∷ bs) h = omega (arith, length-Fits ks bs h.1)
