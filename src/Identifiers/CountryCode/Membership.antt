-- ===== src/Identifiers/CountryCode/Membership.antt =====
-- The bitmap holds exactly the table, and what `from_bytes` and `parse` accept.
use valqeron.Base.{
  ℕ, zero, suc, ◌<◌, ◌≡◌, ◌↔◌, ◌⊎◌, inl, inr, refl, sym, ap, ◌∙◌, Bool, true, false, not, ◌&&◌,
  ◌||◌, List, [], ◌∷◌, arith, leb, ◌==◌, all, All, Bool-cases, ==_iff,
}
use valqeron.Text.{Bytes}
use valqeron.Identifiers.Common.{letter, Fits}
use valqeron.Identifiers.CountryCode.Table.{assigned_codes}
use valqeron.Identifiers.CountryCode.Defs.{
  assigned, bit_index, build_bitmap, has_bit, is_assigned, check_table,
}

-- The code is one of a table.
abbrev pub Listed : Bytes → List Bytes → Type 0
Listed code [] = ⊥
Listed code (x ∷ xs) = (code ≡ x) ⊎ Listed code xs

table_checked : check_table assigned_codes ≡ true
unfolding check_table assigned_codes
table_checked = refl

-- Whether a table has a code of this index.
index_listed : ℕ → List Bytes → Bool
index_listed i [] = false
index_listed i (x ∷ xs) = bit_index x == i || index_listed i xs

-- A test holds of every index under a bound, by evaluation.
holds_under : (ℕ → Bool) → ℕ → Bool
holds_under test zero = true
holds_under test (suc bound) = holds_under test bound && test bound

holds_under_lem :
    (test : ℕ → Bool) (bound i : ℕ) → i < bound → holds_under test bound ≡ true → test i ≡ true
unfolding holds_under
holds_under_lem test (suc bound) i below all_hold = ground (arith, holds_under_lem test bound i)
holds_under_lem test zero i below all_hold = absurd (omega arith)

same : Bool → Bool → Bool
same true b = b
same false b = not b

agrees : List ℕ → List Bytes → ℕ → Bool
agrees bits table i = same (has_bit bits i) (index_listed i table)

-- Every one of the 26 * 26 bits of the bitmap, against the table.
bitmap_table : holds_under (agrees assigned assigned_codes) 676 ≡ true
unfolding holds_under agrees same has_bit index_listed assigned assigned_codes bit_index
    build_bitmap
bitmap_table = refl

-- Two upper case letters.
abbrev pub IsPair : Bytes → Type 0
IsPair = Fits (letter ∷ letter ∷ [])

is_pair : Bytes → Bool
is_pair (a ∷ b ∷ []) = (leb b'A' a && leb a b'Z') && (leb b'A' b && leb b b'Z')
is_pair _ = false

IsPair-is_pair : (c : Bytes) → is_pair c ≡ true → IsPair c
unfolding is_pair
IsPair-is_pair (a ∷ b ∷ []) e = ground arith
IsPair-is_pair [] e = cc
IsPair-is_pair (a ∷ []) e = cc
IsPair-is_pair (a ∷ b ∷ c ∷ r) e = cc

All-IsPair : (cs : List Bytes) → all is_pair cs ≡ true → All IsPair cs
All-IsPair [] e = tt
All-IsPair (c ∷ cs) e = (IsPair-is_pair c (ground arith), All-IsPair cs (ground arith))

table_pairs : All IsPair assigned_codes
table_pairs = All-IsPair assigned_codes (unfold is_pair assigned_codes in refl)

bit_index-lt : (c : Bytes) → IsPair c → bit_index c < 676
unfolding bit_index
bit_index-lt [] h = absurd h
bit_index-lt (a ∷ []) h = absurd (h.1)
bit_index-lt (a ∷ b ∷ []) h = omega arith
bit_index-lt (a ∷ b ∷ c ∷ r) h = absurd (h.1.1)

-- Different codes have different bits.
bit_index-injective : (c d : Bytes) → IsPair c → IsPair d → bit_index c ≡ bit_index d → c ≡ d
unfolding bit_index
bit_index-injective (a ∷ b ∷ []) (a' ∷ b' ∷ []) h h' e =
    let first : a ≡ a' = omega arith in let second : b ≡ b' = omega arith in cc
bit_index-injective [] d h h' e = absurd h
bit_index-injective (a ∷ []) d h h' e = absurd (h.1)
bit_index-injective (a ∷ b ∷ c ∷ r) d h h' e = absurd (h.1.1)
bit_index-injective (a ∷ b ∷ []) [] h h' e = absurd h'
bit_index-injective (a ∷ b ∷ []) (a' ∷ []) h h' e = absurd (h'.1)
bit_index-injective (a ∷ b ∷ []) (a' ∷ b' ∷ c' ∷ r') h h' e = absurd (h'.1.1)

index_listed_iff :
    (c : Bytes) (cs : List Bytes)
    → IsPair c
    → All IsPair cs
    → (index_listed (bit_index c) cs ≡ true) ↔ Listed c cs
unfolding index_listed
index_listed_iff c [] h k = (λ e. absurd (cc e), λ l. absurd l)
index_listed_iff c (x ∷ xs) h k = elim (Bool-cases (bit_index x == bit_index c)) [
  | inl hit ↦
      (λ e. inl (sym (bit_index-injective x c k.0 h ((==_iff _ _).0 hit))), λ l. rw hit refl)
  | inr miss ↦ (
    λ e. inr ((index_listed_iff c xs h k.1).0 (rw miss at e)),
    elim [
      | inl e ↦ cc (sym miss ∙ (==_iff (bit_index x) (bit_index c)).1 (ap bit_index (sym e)))
      | inr l ↦ rw miss ((index_listed_iff c xs h k.1).1 l)
    ],
  )
]

eq-of-true : (x y : Bool) → same x y ≡ true → x ≡ y
unfolding same
eq-of-true x y e = ground arith

-- For two upper case letters the bitmap answers exactly whether the table lists them.
pub is_assigned_iff : (c : Bytes) → IsPair c → (is_assigned c ≡ true) ↔ Listed c assigned_codes
unfolding is_assigned
is_assigned_iff c h =
    let row =
      holds_under_lem (agrees assigned assigned_codes) 676 (bit_index c) (bit_index-lt c h)
        bitmap_table in
    let bits =
      eq-of-true (has_bit assigned (bit_index c)) (index_listed (bit_index c) assigned_codes)
        (unfold agrees in row) in
    rw bits (index_listed_iff c assigned_codes h table_pairs)
