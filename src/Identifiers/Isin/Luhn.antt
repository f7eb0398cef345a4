-- ===== src/Identifiers/Isin/Luhn.antt =====
-- The Luhn sum, described apart from the code: letters are written out as two digits, and from
-- the right every second digit counts by the digit sum of its double.
use mathlib.Core.List.{reverse-append, reverse-reverse, append-nil, append_assoc}
use valqeron.Base.{
  ℕ, ◌+◌, ◌-◌, ◌*◌, ◌/◌, ◌%◌, ◌≤◌, ◌<◌, ◌≡◌, refl, sym, ap, ◌∙◌, Bool, true, false, not, List, [],
  ◌∷◌, ◌++◌, reverse, arith, if◌then◌else◌, length, length-reverse, All, All-reverse, ◌↔◌,
}
use valqeron.Text.{Bytes, is_ascii_digit}
use valqeron.Identifiers.Common.{InClass, alphanumeric, IsDigit}
use valqeron.Identifiers.Isin.Defs.{luhn_round, luhn_loop, compute_check_digit}

abbrev pub IsAlphanumeric : ℕ → Type 0
IsAlphanumeric = InClass alphanumeric

-- A digit is itself, `A` is 10, and so on to `Z`, 35; rightmost digit first.
pub digits_of : ℕ → List ℕ
digits_of c = if is_ascii_digit c then (c - 48) ∷ [] else ((c - 55) % 10) ∷ ((c - 55) / 10) ∷ []

-- The digits of a byte string from the right.
pub digits : Bytes → List ℕ
unfolding digits_of
digits [] = []
digits (c ∷ cs) = digits cs ++ digits_of c

abbrev pub weigh : Bool → ℕ → ℕ
weigh true d = (2 * d) / 10 + (2 * d) % 10
weigh false d = d

-- The weighted sum of digits from the right; the flag says whether the first one is doubled.
pub luhn : Bool → List ℕ → ℕ
luhn double [] = 0
luhn double (d ∷ ds) = weigh double d + luhn (not double) ds

-- The flag behind some digits.
pub parity : Bool → List ℕ → Bool
parity double [] = double
parity double (d ∷ ds) = parity (not double) ds

pub luhn-append :
    (double : Bool) (xs ys : List ℕ)
    → luhn double (xs ++ ys) ≡ luhn double xs + luhn (parity double xs) ys
unfolding luhn parity
luhn-append double [] ys = omega arith
luhn-append double (x ∷ xs) ys = omega (arith, luhn-append (not double) xs ys)

parity-append :
    (double : Bool) (xs ys : List ℕ) → parity double (xs ++ ys) ≡ parity (parity double xs) ys
unfolding parity
parity-append double [] ys = refl
parity-append double (x ∷ xs) ys = parity-append (not double) xs ys

pub digits-append : (xs ys : Bytes) → digits (xs ++ ys) ≡ digits ys ++ digits xs
unfolding digits
digits-append [] ys = sym (append-nil (digits ys))
digits-append (x ∷ xs) ys =
    ap (λ ds. ds ++ digits_of x) (digits-append xs ys)
    ∙ append_assoc (digits ys) (digits xs) (digits_of x)

-- One round adds the weighted digits of its character.
round_lem :
    (c sum : ℕ) (double : Bool)
    → IsAlphanumeric c
    → sum < 4000000000
    → (luhn_round c (sum, double) ≡ (sum + luhn double (digits_of c), parity double (digits_of c)))
      × (luhn double (digits_of c) ≤ 18)
unfolding luhn_round digits_of luhn parity
round_lem c sum double h lt = ground arith

digits-reverse :
    (c : ℕ) (cs : Bytes) → digits (reverse (c ∷ cs)) ≡ digits_of c ++ digits (reverse cs)
unfolding digits
digits-reverse c cs = rw (reverse-append (c ∷ []) cs) (digits-append (reverse cs) (c ∷ []))

-- The loop adds the weighted digits of what it has left, which it meets from the right.
loop_lem :
    (cs : Bytes) (sum : ℕ) (double : Bool)
    → All IsAlphanumeric cs
    → sum + 18 * length cs < 4000000000
    → (luhn_loop cs (sum, double)).0 ≡ sum + luhn double (digits (reverse cs))
unfolding luhn_loop
loop_lem [] sum double h lt = unfold luhn digits in omega arith
loop_lem (c ∷ cs) sum double h lt =
    let (step, small) = round_lem c sum double h.0 (omega arith) in
    let ds = digits_of c in
    let rest = digits (reverse cs) in
    ap (λ st. (luhn_loop cs st).0) step
    ∙ loop_lem cs (sum + luhn double ds) (parity double ds) h.1 (omega arith)
    ∙ omega (arith, ap (luhn double) (digits-reverse c cs), luhn-append double ds rest)

-- The single pass of `compute_check_digit` computes the Luhn check digit of the digits written
-- out in full, for at most a million upper case letters and digits.
pub compute_check_digit-luhn :
    (base : Bytes)
    → All IsAlphanumeric base
    → length base ≤ 1000000
    → compute_check_digit base ≡ (10 - luhn true (digits base) % 10) % 10
unfolding compute_check_digit
compute_check_digit-luhn base h l =
    let back : reverse (reverse base) ≡ base = reverse-reverse base in
    let run =
      loop_lem (reverse base) 0 true (All-reverse IsAlphanumeric base h)
        (omega (arith, length-reverse base)) in
    omega (arith, rw back at run)

-- The Luhn condition on a whole identifier: the weighted sum is a multiple of ten.
abbrev pub IsLuhn : Bytes → Type 0
IsLuhn bytes = luhn false (digits bytes) % 10 ≡ 0

luhn-concat :
    (base : Bytes) (d : ℕ)
    → IsDigit d
    → luhn false (digits (base ++ (d ∷ []))) ≡ (d - 48) + luhn true (digits base)
unfolding digits digits_of
luhn-concat base d h = rw (digits-append base (d ∷ [])) (unfold luhn in ground arith)

-- A last digit agrees with the computed one exactly when the whole satisfies the condition.
pub IsLuhn-iff :
    (base : Bytes) (d : ℕ)
    → IsDigit d
    → IsLuhn (base ++ (d ∷ [])) ↔ ((10 - luhn true (digits base) % 10) % 10 ≡ d - 48)
IsLuhn-iff base d h =
    (λ e. omega (arith, luhn-concat base d h), λ e. omega (arith, luhn-concat base d h))

-- Digits weigh differently, in either place.
weigh_injective :
    (double : Bool) (d d' s t : ℕ)
    → d < 10
    → d' < 10
    → (s + (weigh double d + t)) % 10 ≡ 0
    → (s + (weigh double d' + t)) % 10 ≡ 0
    → d ≡ d'
weigh_injective true d d' s t h h' e e' = omega arith
weigh_injective false d d' s t h h' e e' = omega arith

digits_of-IsDigit : (c : ℕ) → IsDigit c → digits_of c ≡ (c - 48) ∷ []
unfolding digits_of
digits_of-IsDigit c h = ground arith

digits_at :
    (a b : Bytes) (c : ℕ) → IsDigit c → digits (a ++ (c ∷ b)) ≡ digits b ++ ((c - 48) ∷ digits a)
unfolding digits
digits_at a b c h =
    digits-append a (c ∷ b)
    ∙ append_assoc (digits b) (digits_of c) (digits a)
    ∙ ap (λ ds. digits b ++ (ds ++ digits a)) (digits_of-IsDigit c h)

luhn_at :
    (a b : Bytes) (c : ℕ)
    → IsDigit c
    → luhn false (digits (a ++ (c ∷ b)))
      ≡ luhn false (digits b)
        + (weigh (parity false (digits b)) (c - 48)
            + luhn (not (parity false (digits b))) (digits a))
luhn_at a b c h =
    ap (luhn false) (digits_at a b c h)
    ∙ luhn-append false (digits b) ((c - 48) ∷ digits a)
    ∙ ap (λ n. luhn false (digits b) + n) (unfold luhn in refl)

-- The condition detects every change of a single digit.
pub IsLuhn-one_digit :
    (a b : Bytes) (c c' : ℕ)
    → IsDigit c
    → IsDigit c'
    → IsLuhn (a ++ (c ∷ b))
    → IsLuhn (a ++ (c' ∷ b))
    → c ≡ c'
IsLuhn-one_digit a b c c' h h' e e' = omega (
  arith,
  weigh_injective (parity false (digits b)) (c - 48) (c' - 48) (luhn false (digits b))
      (luhn (not (parity false (digits b))) (digits a)) (omega arith) (omega arith)
      (rw (luhn_at a b c h) at e) (rw (luhn_at a b c' h') at e'),
)
