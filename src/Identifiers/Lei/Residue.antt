-- ===== src/Identifiers/Lei/Residue.antt =====
-- The residue of a LEI, described apart from the code: letters are written out as two digits, and
-- the number that the digits spell is taken modulo 97.
use valqeron.Base.{
  ℕ, ◌+◌, ◌-◌, ◌*◌, ◌/◌, ◌%◌, ◌<◌, ◌≡◌, refl, sym, ap, ◌∙◌, List, [], ◌∷◌, ◌++◌, arith,
  if◌then◌else◌, All,
}
use valqeron.Text.{Bytes, is_ascii_digit}
use valqeron.Identifiers.Common.{InClass, alphanumeric}
use valqeron.Identifiers.Lei.Defs.{fold_round, fold_mod_97}

abbrev pub IsAlphanumeric : ℕ → Type 0
IsAlphanumeric = InClass alphanumeric

-- A digit is itself, `A` is 10, and so on to `Z`, 35; in reading order.
pub digits_of : ℕ → List ℕ
digits_of c = if is_ascii_digit c then (c - 48) ∷ [] else ((c - 55) / 10) ∷ ((c - 55) % 10) ∷ []

pub numeral : Bytes → List ℕ
numeral [] = []
numeral (c ∷ cs) = digits_of c ++ numeral cs

-- The number that decimal digits spell behind a number.
pub decimal : ℕ → List ℕ → ℕ
decimal n [] = n
decimal n (d ∷ ds) = decimal (n * 10 + d) ds

abbrev pub residue : Bytes → ℕ
residue bytes = decimal 0 (numeral bytes) % 97

decimal-append : (n : ℕ) (xs ys : List ℕ) → decimal n (xs ++ ys) ≡ decimal (decimal n xs) ys
unfolding decimal
decimal-append n [] ys = refl
decimal-append n (x ∷ xs) ys = decimal-append (n * 10 + x) xs ys

round_lem :
    (n rem c : ℕ)
    → IsAlphanumeric c
    → rem ≡ n % 97
    → fold_round rem c ≡ decimal n (digits_of c) % 97
unfolding fold_round digits_of decimal
round_lem n rem c h e = ground arith

fold_lem :
    (n rem : ℕ) (cs : Bytes)
    → All IsAlphanumeric cs
    → rem ≡ n % 97
    → fold_mod_97 rem cs ≡ decimal n (numeral cs) % 97
unfolding fold_mod_97 numeral
fold_lem n rem [] h e = unfold decimal in e
fold_lem n rem (c ∷ cs) h e =
    fold_lem (decimal n (digits_of c)) (fold_round rem c) cs h.1 (round_lem n rem c h.0 e)
    ∙ ap (λ m. m % 97) (sym (decimal-append n (digits_of c) (numeral cs)))

-- `fold_mod_97` computes the residue modulo 97 of the number that upper case letters and digits
-- spell when they are written out in full, with no wrap-around of its `u32`.
pub fold_mod_97-residue : (bs : Bytes) → All IsAlphanumeric bs → fold_mod_97 0 bs ≡ residue bs
fold_mod_97-residue bs h = fold_lem 0 0 bs h refl

pub fold_round-lt : (rem c : ℕ) → fold_round rem c < 97
unfolding fold_round
fold_round-lt rem c = ground arith

pub fold_mod_97-lt : (rem : ℕ) (cs : Bytes) → rem < 97 → fold_mod_97 rem cs < 97
unfolding fold_mod_97
fold_mod_97-lt rem [] h = h
fold_mod_97-lt rem (c ∷ cs) h = fold_mod_97-lt (fold_round rem c) cs (fold_round-lt rem c)

pub fold-append :
    (rem : ℕ) (xs ys : Bytes) → fold_mod_97 rem (xs ++ ys) ≡ fold_mod_97 (fold_mod_97 rem xs) ys
unfolding fold_mod_97
fold-append rem [] ys = refl
fold-append rem (x ∷ xs) ys = fold-append (fold_round rem x) xs ys

fold_round-injective :
    (r r' c : ℕ) → IsAlphanumeric c → r < 97 → r' < 97 → fold_round r c ≡ fold_round r' c → r ≡ r'
unfolding fold_round
fold_round-injective r r' c h l l' e = ground arith

-- What follows a change does not hide it.
pub fold-injective :
    (r r' : ℕ) (cs : Bytes)
    → All IsAlphanumeric cs
    → r < 97
    → r' < 97
    → fold_mod_97 r cs ≡ fold_mod_97 r' cs
    → r ≡ r'
unfolding fold_mod_97
fold-injective r r' [] h l l' e = e
fold-injective r r' (c ∷ cs) h l l' e = fold_round-injective r r' c h.0 l l' (
    fold-injective (fold_round r c) (fold_round r' c) cs h.1 (fold_round-lt r c)
      (fold_round-lt r' c) e)
