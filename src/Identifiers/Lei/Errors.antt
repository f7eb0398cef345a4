-- ===== src/Identifiers/Lei/Errors.antt =====
-- Which slips of the pen the check digits detect.
use valqeron.Base.{
  ℕ, ◌+◌, ◌-◌, ◌*◌, ◌%◌, ◌≤◌, ◌<◌, ◌≡◌, ◌↔◌, ◌⊎◌, inl, inr, sym, ap, ◌∙◌, ◌∷◌, ◌++◌, arith, All,
  All-append,
}
use valqeron.Text.{Bytes}
use valqeron.Identifiers.Common.{IsDigit, IsLetter}
use valqeron.Identifiers.Lei.Defs.{fold_round, fold_mod_97}
use valqeron.Identifiers.Lei.Residue.{
  IsAlphanumeric, residue, fold_mod_97-residue, fold_mod_97-lt, fold-append, fold-injective,
  fold_round-lt,
}

-- Both digits, or both letters.
abbrev pub SameClass : ℕ → ℕ → Type 0
SameClass c c' = (IsDigit c × IsDigit c') ⊎ (IsLetter c × IsLetter c')

-- `1` and `B`, `2` and `M`, `3` and `X`: a digit and a letter that spell the same number in either
-- order, 111, 222 and 333.
abbrev pub Twins : ℕ → ℕ → Type 0
Twins c c' = ((c ≡ b'1') × (c' ≡ b'B')) ⊎ ((c ≡ b'2') × (c' ≡ b'M')) ⊎ ((c ≡ b'3') × (c' ≡ b'X'))

fold_round_same : (r c c' : ℕ) → SameClass c c' → r < 97 → fold_round r c ≡ fold_round r c' → c ≡ c'
unfolding fold_round
fold_round_same r c c' h l e = ground arith

fold_digit : (r c : ℕ) → IsDigit c → r < 97 → fold_round r c ≡ (r * 10 + (c - 48)) % 97
unfolding fold_round
fold_digit r c h l = ground arith

fold_letter : (r c : ℕ) → IsLetter c → r < 97 → fold_round r c ≡ (r * 100 + (c - 55)) % 97
unfolding fold_round
fold_letter r c h l = ground arith

-- A digit before a letter, against the letter before the digit, in numbers.
twin_sum :
    (r d v : ℕ)
    → d < 10
    → 10 ≤ v
    → v ≤ 35
    → ((r * 10 + d) % 97 * 100 + v) % 97 ≡ ((r * 100 + v) % 97 * 10 + d) % 97
    → v ≡ 11 * d
twin_sum r d v h k l e = omega arith

pair : ℕ → ℕ → ℕ → ℕ
pair r c c' = fold_round (fold_round r c) c'

module _ (r : ℕ) (small : r < 97) where
  pair_digits :
      (c c' : ℕ)
      → IsDigit c
      → IsDigit c'
      → pair r c c' ≡ ((r * 10 + (c - 48)) % 97 * 10 + (c' - 48)) % 97
  unfolding pair
  pair_digits c c' h h' =
      rw (fold_digit r c h small) (fold_digit ((r * 10 + (c - 48)) % 97) c' h' (omega arith))

  pair_letters :
      (c c' : ℕ)
      → IsLetter c
      → IsLetter c'
      → pair r c c' ≡ ((r * 100 + (c - 55)) % 97 * 100 + (c' - 55)) % 97
  unfolding pair
  pair_letters c c' h h' =
      rw (fold_letter r c h small) (fold_letter ((r * 100 + (c - 55)) % 97) c' h' (omega arith))

  pair_digit_letter :
      (c c' : ℕ)
      → IsDigit c
      → IsLetter c'
      → pair r c c' ≡ ((r * 10 + (c - 48)) % 97 * 100 + (c' - 55)) % 97
  unfolding pair
  pair_digit_letter c c' h h' =
      rw (fold_digit r c h small) (fold_letter ((r * 10 + (c - 48)) % 97) c' h' (omega arith))

  pair_letter_digit :
      (c c' : ℕ)
      → IsLetter c
      → IsDigit c'
      → pair r c c' ≡ ((r * 100 + (c - 55)) % 97 * 10 + (c' - 48)) % 97
  unfolding pair
  pair_letter_digit c c' h h' =
      rw (fold_letter r c h small) (fold_digit ((r * 100 + (c - 55)) % 97) c' h' (omega arith))

  Twins-pair : (c c' : ℕ) → IsDigit c → IsLetter c' → pair r c c' ≡ pair r c' c → Twins c c'
  Twins-pair c c' h h' e =
      let v =
        twin_sum r (c - 48) (c' - 55) (omega arith) (omega arith) (omega arith)
          (sym (pair_digit_letter c c' h h') ∙ e ∙ pair_letter_digit c' c h' h) in
      twins c c' h h' v
    where
      twins : (d m : ℕ) → IsDigit d → IsLetter m → m - 55 ≡ 11 * (d - 48) → Twins d m
      twins d m k k' f = ground arith

  pair-Twins : (c c' : ℕ) → Twins c c' → pair r c c' ≡ pair r c' c
  pair-Twins c c' t =
      let (h, h') = classes t in
      pair_digit_letter c c' h h' ∙ twins_sum t ∙ sym (pair_letter_digit c' c h' h)
    where
      classes : Twins c c' → IsDigit c × IsLetter c'
      classes k = ground arith

      twins_sum :
          Twins c c'
          → ((r * 10 + (c - 48)) % 97 * 100 + (c' - 55)) % 97
            ≡ ((r * 100 + (c' - 55)) % 97 * 10 + (c - 48)) % 97
      twins_sum k = let v : c' - 55 ≡ 11 * (c - 48) = ground arith in omega arith

  pair_swapped :
      (c c' : ℕ)
      → IsAlphanumeric c
      → IsAlphanumeric c'
      → pair r c c' ≡ pair r c' c
      → (c ≡ c') ⊎ Twins c c' ⊎ Twins c' c
  pair_swapped c c' (inl h) (inl h') e =
      inl (omega (arith, sym (pair_digits c c' h h') ∙ e ∙ pair_digits c' c h' h))
  pair_swapped c c' (inr h) (inr h') e =
      inl (omega (arith, sym (pair_letters c c' h h') ∙ e ∙ pair_letters c' c h' h))
  pair_swapped c c' (inl h) (inr h') e = inr (inl (Twins-pair c c' h h' e))
  pair_swapped c c' (inr h) (inl h') e = inr (inr (Twins-pair c' c h' h (sym e)))

  swapped_pair : (c c' : ℕ) → (c ≡ c') ⊎ Twins c c' ⊎ Twins c' c → pair r c c' ≡ pair r c' c
  swapped_pair c c' (inl e) = rw e
  swapped_pair c c' (inr (inl t)) = pair-Twins c c' t
  swapped_pair c c' (inr (inr t)) = sym (pair-Twins c' c t)

-- The residue of a byte string, from any place on.
residue_from :
    (a b : Bytes)
    → All IsAlphanumeric a
    → All IsAlphanumeric b
    → residue (a ++ b) ≡ fold_mod_97 (fold_mod_97 0 a) b
residue_from a b h k =
    sym (fold_mod_97-residue (a ++ b) (All-append IsAlphanumeric a b h k)) ∙ fold-append 0 a b

-- Exchanging two neighbours leaves the residue as it is exactly when they are equal or a pair of
-- twins, `1` with `B`, `2` with `M` or `3` with `X`, in either order: every other exchange is
-- detected.
pub residue_swapped_iff :
    (a b : Bytes) (c c' : ℕ)
    → All IsAlphanumeric a
    → All IsAlphanumeric b
    → IsAlphanumeric c
    → IsAlphanumeric c'
    → (residue (a ++ (c ∷ c' ∷ b)) ≡ residue (a ++ (c' ∷ c ∷ b)))
      ↔ ((c ≡ c') ⊎ Twins c c' ⊎ Twins c' c)
unfolding fold_mod_97 pair
residue_swapped_iff a b c c' ha hb h h' =
    let r = fold_mod_97 0 a in
    let small = fold_mod_97-lt 0 a (omega arith) in
    let first = residue_from a (c ∷ c' ∷ b) ha (h, (h', hb)) in
    let second = residue_from a (c' ∷ c ∷ b) ha (h', (h, hb)) in
    (
      λ e. pair_swapped r small c c' h h' (
          fold-injective (pair r c c') (pair r c' c) b hb (pair_lt r c c') (pair_lt r c' c)
            (sym first ∙ e ∙ second)),
      λ t. first ∙ ap (λ q. fold_mod_97 q b) (swapped_pair r small c c' t) ∙ sym second,
    )
  where
    pair_lt : (q x y : ℕ) → pair q x y < 97
    pair_lt q x y = fold_round-lt (fold_round q x) y

-- Writing another digit for a digit, or another letter for a letter, changes the residue.
pub residue_one_character :
    (a b : Bytes) (c c' : ℕ)
    → All IsAlphanumeric a
    → All IsAlphanumeric b
    → SameClass c c'
    → residue (a ++ (c ∷ b)) ≡ residue (a ++ (c' ∷ b))
    → c ≡ c'
unfolding fold_mod_97
residue_one_character a b c c' ha hb s e =
    let r = fold_mod_97 0 a in
    let (h, h') = classes s in
    fold_round_same r c c' s (fold_mod_97-lt 0 a (omega arith)) (
      fold-injective (fold_round r c) (fold_round r c') b hb (fold_round-lt r c)
        (fold_round-lt r c')
        (sym (residue_from a (c ∷ b) ha (h, hb)) ∙ e ∙ residue_from a (c' ∷ b) ha (h', hb)))
  where
    classes : SameClass c c' → IsAlphanumeric c × IsAlphanumeric c'
    classes (inl (k, k')) = (inl k, inl k')
    classes (inr (k, k')) = (inr k, inr k')
