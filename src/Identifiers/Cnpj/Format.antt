-- ===== src/Identifiers/Cnpj/Format.antt =====
-- Which arrays `from_bytes` accepts, and what `parse` makes of plain and of punctuated text.
use valqeron.Base.{
  ℕ, suc, ◌+◌, ◌-◌, ◌≤◌, ◌≡◌, ◌↔◌, refl, sym, ap, ◌∙◌, subst, Bool, true, List, [], ◌∷◌, ◌++◌, map,
  some, none, arith, inl, inr, ◌==◌, length, get_or, get_elem?, take, all, All, All-append,
  split_last, take_of_append, get_or_of_append, get_elem?_of_append, ok, >>=-eq-ok, length-append,
  length-map, Bool-cases, ◌&&◌, ==_iff,
}
use mathlib.Core.List.{append_assoc, map-append}
use native.Mathlib.Nat.{zero-add}
use valqeron.Text.{Bytes}
use valqeron.Identifiers.Common.{
  CharacterClass, digit, alphanumeric, IsDigit, InClass, Fits, Fits-alphanumeric, Fits-last,
  length-Fits,
}
use valqeron.Identifiers.Fixed.{check_each_iff}
use valqeron.Identifiers.Cnpj.Defs.{
  Cnpj, weights_dv1, weights_dv2, class_at, fault, validate_character_classes, char_value,
  compute_check_digit, from_fn, compute_valid_check_digits, found_at, validate_not_repeated,
  validate_check_digits, validate, from_bytes,
}
use valqeron.Identifiers.Cnpj.Weights.{IsCheckDigit, IsSmall, dv1_iff, dv2_iff}

abbrev base_format : List CharacterClass
base_format =
    alphanumeric ∷ alphanumeric ∷ alphanumeric ∷ alphanumeric ∷ alphanumeric ∷ alphanumeric
    ∷ alphanumeric ∷ alphanumeric ∷ alphanumeric ∷ alphanumeric ∷ alphanumeric ∷ alphanumeric ∷ []

abbrev pub format : List CharacterClass
format = base_format ++ (digit ∷ digit ∷ [])

-- The value of a character: its distance from `0`, so that `A` is 17.
abbrev pub value : ℕ → ℕ
value b = b - 48

-- The format, two check digits, each over what stands before it, and not one character all over.
abbrev pub IsCnpj : Bytes → Type 0
IsCnpj bytes =
    Fits format bytes
    × (¬ All (λ b. b ≡ get_or bytes 0 0) bytes)
    × IsCheckDigit (map value (take 12 bytes)) (value (get_or bytes 12 0))
    × IsCheckDigit (map value (take 13 bytes)) (value (get_or bytes 13 0))

fault_iff : (i b : ℕ) → (fault i b ≡ none) ↔ InClass (class_at i) b
unfolding fault
fault_iff i b = ground arith

classes_iff :
    (bs : Bytes) → length bs ≡ 14 → (validate_character_classes bs ≡ ok tt) ↔ Fits format bs
unfolding validate_character_classes class_at
classes_iff bs l = check_each_iff fault class_at fault_iff 14 bs l

&&_parts : (x y : Bool) → x && y ≡ true → (x ≡ true) × (y ≡ true)
&&_parts x y e = ground arith

all_iff : (b : ℕ) (bs : Bytes) → (all (λ c. c == b) bs ≡ true) ↔ All (λ c. c ≡ b) bs
all_iff b [] = (λ e. tt, λ h. refl)
all_iff b (c ∷ bs) = (
  λ e.
      let (first, rest) = &&_parts (c == b) (all (λ x. x == b) bs) e in
      ((==_iff c b).0 first, (all_iff b bs).0 rest),
  λ h. rw ((==_iff c b).1 h.0) ((all_iff b bs).1 h.1),
)

repeated_iff :
    (bs : Bytes) → (validate_not_repeated bs ≡ ok tt) ↔ (¬ All (λ b. b ≡ get_or bs 0 0) bs)
unfolding validate_not_repeated
repeated_iff bs = elim (Bool-cases (all (λ b. b == get_or bs 0 0) bs)) [
  | inl same ↦ (λ e. cc (rw same at e), λ n. absurd (n ((all_iff (get_or bs 0 0) bs).0 same)))
  | inr other ↦ (λ e h. cc (sym other ∙ (all_iff (get_or bs 0 0) bs).1 h), λ n. rw other)
]

-- The base and the two check digits apart.
record Parts (bs : Bytes) : Type 0 where
  base : Bytes
  tens : ℕ
  ones : ℕ
  splits : bs ≡ base ++ (tens ∷ ones ∷ [])
  length_base : length base ≡ 12
  alnum : All (InClass alphanumeric) base
  tens_digit : IsDigit tens
  ones_digit : IsDigit ones

Parts-Fits : (bs : Bytes) → Fits format bs → Parts bs
Parts-Fits bs f =
    let (front, y, e, l) = split_last 13 bs (length-Fits format bs f) in
    let (f', ky) =
      Fits-last (base_format ++ (digit ∷ [])) digit front y (sym l) (subst (Fits format) e f) in
    let (base, x, e', l') = split_last 12 front l in
    let (f'', kx) =
      Fits-last base_format digit base x (sym l')
        (subst (Fits (base_format ++ (digit ∷ []))) e' f') in
    record {
      base = base;
      tens = x;
      ones = y;
      splits = e ∙ ap (λ r. r ++ (y ∷ [])) e' ∙ append_assoc base (x ∷ []) (y ∷ []);
      length_base = l';
      alnum = Fits-alphanumeric base_format base f'';
      tens_digit = kx;
      ones_digit = ky;
    }

from_fn_lem :
    (vs : List ℕ) (d i : ℕ) (f : ℕ → ℕ)
    → ((k : ℕ) → f (i + k) ≡ get_or vs k d)
    → from_fn (suc (length vs)) i f ≡ vs ++ (d ∷ [])
unfolding from_fn
from_fn_lem [] d i f h = let e : i + 0 ≡ i = omega arith in ap (λ x. x ∷ []) (ap f (sym e) ∙ h 0)
from_fn_lem (v ∷ vs) d i f h =
    let e : i + 0 ≡ i = omega arith in
    let later = λ (k : ℕ). let e' : i + 1 + k ≡ i + suc k = omega arith in ap f e' ∙ h (suc k) in
    ap (λ x. x ∷ from_fn (suc (length vs)) (i + 1) f) (ap f (sym e) ∙ h 0)
    ∙ ap (◌∷◌ v) (from_fn_lem vs d (i + 1) f later)

-- A list is what its places hold, read out in turn.
pub tabulate :
    (vs : List ℕ) (i : ℕ) (f : ℕ → ℕ)
    → ((k : ℕ) → f (i + k) ≡ get_or vs k 0)
    → from_fn (length vs) i f ≡ vs
unfolding from_fn
tabulate [] i f h = refl
tabulate (v ∷ vs) i f h =
    let e : i + 0 ≡ i = omega arith in
    let later = λ (k : ℕ). let e' : i + 1 + k ≡ i + suc k = omega arith in ap f e' ∙ h (suc k) in
    ap (λ x. x ∷ from_fn (length vs) (i + 1) f) (ap f (sym e) ∙ h 0)
    ∙ ap (◌∷◌ v) (tabulate vs (i + 1) f later)

-- The second digit is computed over the twelve values and the first digit.
digits_lem :
    (base : Bytes)
    → length base ≡ 12
    → let dv1 = compute_check_digit (map char_value base) weights_dv1 in
      compute_valid_check_digits base
      ≡ (dv1, compute_check_digit (map char_value base ++ (dv1 ∷ [])) weights_dv2)
unfolding compute_valid_check_digits
digits_lem base l =
    let vs = map char_value base in
    let dv1 = compute_check_digit vs weights_dv1 in
    let n : suc (length vs) ≡ 13 = omega (arith, length-map char_value base, l) in
    let filled : from_fn 13 0 (λ i. get_or vs i dv1) ≡ vs ++ (dv1 ∷ []) =
      ap (λ m. from_fn m 0 (λ i. get_or vs i dv1)) (sym n)
      ∙ (from_fn_lem vs dv1 0 (λ i. get_or vs i dv1)
          (λ k. ap (λ m. get_or vs m dv1) (zero-add k))) in
    ap (λ ws. (dv1, compute_check_digit ws weights_dv2)) filled

found_lem : (bs : Bytes) (i b : ℕ) → get_elem? bs i ≡ some b → IsDigit b → found_at bs i ≡ value b
unfolding found_at char_value
found_lem bs i b e h = ground arith

validate_check_digits_lem :
    (bs : Bytes)
    → length bs ≡ 14
    → (validate_check_digits bs ≡ ok tt) ↔ (
        ((compute_valid_check_digits (take 12 bs)).0 ≡ found_at bs 12)
        × ((compute_valid_check_digits (take 12 bs)).1 ≡ found_at bs 13))
unfolding validate_check_digits
validate_check_digits_lem bs l = (λ e. ground arith, λ e. ground arith)

char_value-IsSmall : (bs : Bytes) → All (InClass alphanumeric) bs → All IsSmall (map char_value bs)
unfolding char_value
char_value-IsSmall [] h = tt
char_value-IsSmall (b ∷ bs) h = (small b h.0, char_value-IsSmall bs h.1)
  where
    small : (c : ℕ) → InClass alphanumeric c → c - 48 ≤ 42
    small c k = ground arith

-- The places that the code reads.
record Reads (base : Bytes) (x y : ℕ) (bs : Bytes) : Type 0 where
  front : take 12 bs ≡ base
  front' : take 13 bs ≡ base ++ (x ∷ [])
  first : get_or bs 12 0 ≡ x
  second : get_or bs 13 0 ≡ y
  found_first : found_at bs 12 ≡ value x
  found_second : found_at bs 13 ≡ value y

reads_lem :
    (base : Bytes) (x y : ℕ)
    → length base ≡ 12
    → IsDigit x
    → IsDigit y
    → Reads base x y (base ++ (x ∷ y ∷ []))
reads_lem base x y l hx hy =
    let l' : length (base ++ (x ∷ [])) ≡ 13 = omega (arith, length-append base (x ∷ [])) in
    let e : (base ++ (x ∷ [])) ++ (y ∷ []) ≡ base ++ (x ∷ y ∷ []) =
      append_assoc base (x ∷ []) (y ∷ []) in
    let bs = base ++ (x ∷ y ∷ []) in
    record {
      front = take_of_append 12 base (x ∷ y ∷ []) l;
      front' =
          subst (λ b. take 13 b ≡ base ++ (x ∷ [])) e
            (take_of_append 13 (base ++ (x ∷ [])) (y ∷ []) l');
      first = get_or_of_append 12 base (x ∷ y ∷ []) 0 l;
      second =
          subst (λ b. get_or b 13 0 ≡ y) e (get_or_of_append 13 (base ++ (x ∷ [])) (y ∷ []) 0 l');
      found_first = found_lem bs 12 x (get_elem?_of_append 12 base (x ∷ y ∷ []) l) hx;
      found_second =
          found_lem bs 13 y
            (subst (λ b. get_elem? b 13 ≡ some y) e
              (get_elem?_of_append 13 (base ++ (x ∷ [])) (y ∷ []) l'))
            hy;
    }

-- The two check digits as the code compares them, against the description.
abbrev CheckDigits : Bytes → Type 0
CheckDigits bs =
    IsCheckDigit (map value (take 12 bs)) (value (get_or bs 12 0))
    × IsCheckDigit (map value (take 13 bs)) (value (get_or bs 13 0))

check_iff :
    (base : Bytes) (x y : ℕ)
    → length base ≡ 12
    → All (InClass alphanumeric) base
    → IsDigit x
    → IsDigit y
    → ((compute_valid_check_digits base).0 ≡ value x)
        × ((compute_valid_check_digits base).1 ≡ value y)
      ↔ (IsCheckDigit (map value base) (value x)
          × IsCheckDigit (map value (base ++ (x ∷ []))) (value y))
unfolding char_value
check_iff base x y l h hx hy =
    let vs = map value base in
    let small = char_value-IsSmall base h in
    let d1 = compute_check_digit vs weights_dv1 in
    let lem = digits_lem base l in
    let n : length vs ≡ 12 = omega (arith, length-map value base) in
    let n' : length (vs ++ (value x ∷ [])) ≡ 13 = omega (arith, length-append vs (value x ∷ [])) in
    let x_small : value x ≤ 42 = omega arith in
    let one = dv1_iff vs n small (value x) in
    let two =
      dv2_iff (vs ++ (value x ∷ [])) n' (All-append IsSmall vs (value x ∷ []) small (x_small, tt))
        (value y) in
    let second =
      λ (e : d1 ≡ value x). ap (λ d. compute_check_digit (vs ++ (d ∷ [])) weights_dv2) e in
    let again : map value (base ++ (x ∷ [])) ≡ vs ++ (value x ∷ []) =
      map-append value base (x ∷ []) in
    (
      λ e.
          let e₁ : d1 ≡ value x = sym (ap (λ (p : ℕ × ℕ). p.0) lem) ∙ e.0 in
          (one.0 e₁, rw again (two.0 (sym (second e₁) ∙ sym (ap (λ (p : ℕ × ℕ). p.1) lem) ∙ e.1))),
      λ k.
          let e₁ : d1 ≡ value x = one.1 k.0 in
          (
            ap (λ (p : ℕ × ℕ). p.0) lem ∙ e₁,
            ap (λ (p : ℕ × ℕ). p.1) lem ∙ second e₁ ∙ two.1 (rw again at (k.1)),
          ),
    )

check_of_Fits : (bs : Bytes) → Fits format bs → (validate_check_digits bs ≡ ok tt) ↔ CheckDigits bs
check_of_Fits bs f =
    let p = Parts-Fits bs f in
    let l = length-Fits format bs f in
    let r =
      subst (Reads p.base p.tens p.ones) (sym p.splits)
        (reads_lem p.base p.tens p.ones p.length_base p.tens_digit p.ones_digit) in
    let both = check_iff p.base p.tens p.ones p.length_base p.alnum p.tens_digit p.ones_digit in
    let valid = validate_check_digits_lem bs l in
    let digits = ap compute_valid_check_digits r.front in
    let digit1 = ap (λ (q : ℕ × ℕ). q.0) digits in
    let digit2 = ap (λ (q : ℕ × ℕ). q.1) digits in
    (
      λ e.
          let (v₁, v₂) = valid.0 e in
          let (k₁, k₂) =
            both.0 (sym digit1 ∙ v₁ ∙ r.found_first, sym digit2 ∙ v₂ ∙ r.found_second) in
          (rw (r.front, r.first) k₁, rw (r.front', r.second) k₂),
      λ k.
          let (v₁, v₂) =
            both.1 (rw (r.front, r.first) at (k.0), rw (r.front', r.second) at (k.1)) in
          valid.1 (digit1 ∙ v₁ ∙ sym r.found_first, digit2 ∙ v₂ ∙ sym r.found_second),
    )

validate_iff : (bs : Bytes) → length bs ≡ 14 → (validate bs ≡ ok tt) ↔ IsCnpj bs
unfolding validate
validate_iff bs l = (sound, complete)
  where
    sound : validate bs ≡ ok tt → IsCnpj bs
    sound e =
        let (_, e₁, rest) = >>=-eq-ok (validate_character_classes bs) _ e in
        let (_, e₂, rest') = >>=-eq-ok (validate_not_repeated bs) _ rest in
        let (_, e₃, _) = >>=-eq-ok (validate_check_digits bs) _ rest' in
        let f = (classes_iff bs l).0 e₁ in
        let (k₁, k₂) = (check_of_Fits bs f).0 e₃ in (f, (repeated_iff bs).0 e₂, k₁, k₂)

    complete : IsCnpj bs → validate bs ≡ ok tt
    complete h =
        rw ((classes_iff bs l).1 h.0, (repeated_iff bs).1 h.1, (check_of_Fits bs h.0).1 (h.2, h.3))

-- `from_bytes` accepts exactly the arrays of fourteen bytes of the format, with both check digits
-- right and not one character all over.
pub from_bytes-IsCnpj :
    (bs : Bytes) → length bs ≡ 14 → (from_bytes bs ≡ ok (record { bytes = bs })) ↔ IsCnpj bs
unfolding from_bytes
from_bytes-IsCnpj bs l = (
  λ e. let (_, e', _) = >>=-eq-ok (validate bs) _ e in (validate_iff bs l).0 e',
  λ h. rw ((validate_iff bs l).1 h),
)

pub from_bytes-ok :
    (bs : Bytes) {x : Cnpj} → length bs ≡ 14 → from_bytes bs ≡ ok x → (x.bytes ≡ bs) × IsCnpj bs
unfolding from_bytes
from_bytes-ok bs l e =
    let (_, e', last) = >>=-eq-ok (validate bs) _ e in (cc last, (validate_iff bs l).0 e')
