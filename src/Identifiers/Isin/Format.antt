-- ===== src/Identifiers/Isin/Format.antt =====
-- Which arrays `from_bytes` accepts, and what `parse` makes of a text.
use valqeron.Base.{
  ℕ, ◌+◌, ◌-◌, ◌≤◌, ◌≡◌, ◌≢◌, ◌↔◌, refl, sym, ap, ◌∙◌, subst, List, [], ◌∷◌, ◌++◌, map, none, arith,
  sub8, length, get_or, take, drop, All, split_last, map-ne-nil, take-append-drop, take_of_append,
  drop_of_append, get_or_of_append, ok, ◌>>=◌, >>=-eq-ok, All-map_imp, length-append,
}
use valqeron.Text.{Text, Bytes, to_ascii_uppercase, IsWhitespace}
use valqeron.Identifiers.Common.{
  CharacterClass, digit, letter, alphanumeric, IsDigit, InClass, Fits, Fits-alphanumeric, Fits-last,
  length-Fits,
}
use valqeron.Identifiers.Fixed.{
  check_each_iff, IsCanonical, alphanumeric-IsCanonical, normalize-IsCanonical, normalize-ok,
  normalize_padded, normalize-map,
}
use valqeron.Identifiers.Isin.Defs.{
  Isin, empty, invalid_length, not_ascii, class_at, fault, validate_character_classes,
  compute_check_digit, validate_check_digit, validate, from_bytes, normalize, parse, as_str,
  country_code, nsin, check_digit, computed_check_digit,
}
use valqeron.Identifiers.Isin.Luhn.{IsLuhn, IsLuhn-iff, compute_check_digit-luhn, IsLuhn-one_digit}

-- Two letters for the country, nine characters, a check digit.
abbrev pub format : List CharacterClass
format =
    letter ∷ letter ∷ alphanumeric ∷ alphanumeric ∷ alphanumeric ∷ alphanumeric ∷ alphanumeric
    ∷ alphanumeric ∷ alphanumeric ∷ alphanumeric ∷ alphanumeric ∷ digit ∷ []

-- ISO 6166: the format, and the Luhn condition on the twelve characters.
abbrev pub IsIsin : Bytes → Type 0
IsIsin bytes = Fits format bytes × IsLuhn bytes

fault_iff : (i b : ℕ) → (fault i b ≡ none) ↔ InClass (class_at i) b
unfolding fault
fault_iff i b = ground arith

classes_iff :
    (bs : Bytes) → length bs ≡ 12 → (validate_character_classes bs ≡ ok tt) ↔ Fits format bs
unfolding validate_character_classes class_at
classes_iff bs l = check_each_iff fault class_at fault_iff 12 bs l

check_iff :
    (base : Bytes) (d : ℕ)
    → length base ≡ 11
    → All (InClass alphanumeric) base
    → IsDigit d
    → (validate_check_digit (base ++ (d ∷ [])) ≡ ok tt) ↔ IsLuhn (base ++ (d ∷ []))
unfolding validate_check_digit
check_iff base d l h k =
    let same = compute_check_digit-luhn base h (omega arith) in
    let front = take_of_append 11 base (d ∷ []) l in
    let last = get_or_of_append 11 base (d ∷ []) 0 l in
    (
      λ e. (IsLuhn-iff base d k).1 (ground arith),
      λ e. let e' = (IsLuhn-iff base d k).0 e in ground arith,
    )

-- The format, and the last byte apart.
Parts-Fits :
    (bs : Bytes)
    → Fits format bs
    → (base : Bytes) × (d : ℕ) × (bs ≡ base ++ (d ∷ []))
      × (length base ≡ 11)
      × All (InClass alphanumeric) base
      × IsDigit d
Parts-Fits bs f =
    let (base, d, e, l) = split_last 11 bs (length-Fits format bs f) in
    let (front, last) = Fits-last (take 11 format) digit base d (sym l) (subst (Fits format) e f) in
    (base, d, e, l, Fits-alphanumeric (take 11 format) base front, last)

check_of_Fits : (bs : Bytes) → Fits format bs → (validate_check_digit bs ≡ ok tt) ↔ IsLuhn bs
check_of_Fits bs f =
    let (base, d, e, l, h, k) = Parts-Fits bs f in
    subst (λ b. (validate_check_digit b ≡ ok tt) ↔ IsLuhn b) (sym e) (check_iff base d l h k)

validate_iff : (bs : Bytes) → length bs ≡ 12 → (validate bs ≡ ok tt) ↔ IsIsin bs
unfolding validate
validate_iff bs l = (sound, complete)
  where
    sound : validate bs ≡ ok tt → IsIsin bs
    sound e =
        let (_, e₁, rest) = >>=-eq-ok (validate_character_classes bs) _ e in
        let (_, e₂, _) = >>=-eq-ok (validate_check_digit bs) _ rest in
        let f = (classes_iff bs l).0 e₁ in (f, (check_of_Fits bs f).0 e₂)

    complete : IsIsin bs → validate bs ≡ ok tt
    complete h = rw ((classes_iff bs l).1 h.0, (check_of_Fits bs h.0).1 h.1)

-- `from_bytes` accepts exactly the arrays of twelve bytes that have the ISO 6166 format and
-- satisfy the Luhn condition, and returns them as they are.
pub from_bytes-IsIsin :
    (bs : Bytes) → length bs ≡ 12 → (from_bytes bs ≡ ok (record { bytes = bs })) ↔ IsIsin bs
unfolding from_bytes
from_bytes-IsIsin bs l = (
  λ e. let (_, e', _) = >>=-eq-ok (validate bs) _ e in (validate_iff bs l).0 e',
  λ h. rw ((validate_iff bs l).1 h),
)

-- What `from_bytes` returns has the bytes that it was given.
pub from_bytes-ok :
    (bs : Bytes) {x : Isin} → length bs ≡ 12 → from_bytes bs ≡ ok x → (x.bytes ≡ bs) × IsIsin bs
unfolding from_bytes
from_bytes-ok bs l e =
    let (_, e', last) = >>=-eq-ok (validate bs) _ e in (cc last, (validate_iff bs l).0 e')

-- No two arrays that `from_bytes` accepts differ in exactly one place, with a digit in both.
pub from_bytes_one_digit :
    (a b : Bytes) (c c' : ℕ) {x y : Isin}
    → length (a ++ (c ∷ b)) ≡ 12
    → IsDigit c
    → IsDigit c'
    → from_bytes (a ++ (c ∷ b)) ≡ ok x
    → from_bytes (a ++ (c' ∷ b)) ≡ ok y
    → c ≡ c'
from_bytes_one_digit a b c c' l h h' e e' =
    let l' : length (a ++ (c' ∷ b)) ≡ 12 =
      omega (arith, length-append a (c ∷ b), length-append a (c' ∷ b)) in
    IsLuhn-one_digit a b c c' h h' (from_bytes-ok (a ++ (c ∷ b)) l e).1.1
      (from_bytes-ok (a ++ (c' ∷ b)) l' e').1.1

-- Whatever `parse` returns is an ISO 6166 identifier.
pub parse-IsIsin : (s : Text) {x : Isin} → parse s ≡ ok x → IsIsin x.bytes
unfolding parse normalize
parse-IsIsin s {x} e =
    let (candidate, n, e') = >>=-eq-ok (normalize s) _ e in
    let (l, _) = normalize-ok not_ascii 12 empty invalid_length s n in
    let (same, h) = from_bytes-ok candidate l e' in subst IsIsin (sym same) h

ne-nil_of_length : (bs : Bytes) → length bs ≡ 12 → bs ≢ []
ne-nil_of_length bs l e = absurd (omega (arith, ap length e))

-- The text of a parsed identifier parses to the same identifier.
pub isin-parse-as_str : (s : Text) {x : Isin} → parse s ≡ ok x → parse (as_str x) ≡ ok x
unfolding parse normalize
isin-parse-as_str s {x} e =
    let h = parse-IsIsin s e in
    let canonical =
      All-map_imp (InClass alphanumeric) IsCanonical alphanumeric-IsCanonical x.bytes
        (Fits-alphanumeric format x.bytes h.0) in
    let l = length-Fits format x.bytes h.0 in
    rw
      (normalize-IsCanonical not_ascii 12 empty invalid_length x.bytes canonical l
        (ne-nil_of_length x.bytes l))
      ((from_bytes-IsIsin x.bytes l).1 h)

-- White space around a text that is not empty and the case of its ASCII letters make no
-- difference to `parse`: not to what it returns, and not to its errors.
pub isin-parse_padded :
    (v s w : Text)
    → All IsWhitespace v
    → All IsWhitespace w
    → s ≢ []
    → parse (v ++ (map to_ascii_uppercase s ++ w)) ≡ parse s
unfolding parse normalize
isin-parse_padded v s w h k ne =
    ap (λ m. m >>= from_bytes)
      (normalize_padded not_ascii 12 empty invalid_length v (map to_ascii_uppercase s) w h k
          (map-ne-nil to_ascii_uppercase s ne)
        ∙ normalize-map not_ascii 12 empty invalid_length s)

drop-drop : (bs : Bytes) → drop 9 (drop 2 bs) ≡ drop 11 bs
drop-drop [] = refl
drop-drop (b ∷ []) = refl
drop-drop (b ∷ c ∷ bs) = refl

check_digit_of_check :
    (bs : Bytes)
    → validate_check_digit bs ≡ ok tt
    → sub8 (get_or bs 11 0) b'0' ≡ compute_check_digit (take 11 bs)
unfolding validate_check_digit
check_digit_of_check bs e = ground arith

accessors_of_IsIsin :
    (x : Isin)
    → IsIsin x.bytes
    → (country_code x ++ (nsin x ++ ((b'0' + check_digit x) ∷ [])) ≡ as_str x)
      × (check_digit x ≡ computed_check_digit x)
      × (check_digit x ≤ 9)
unfolding country_code nsin check_digit computed_check_digit
accessors_of_IsIsin x h =
    let (base, d, e, l, alnum, k) = Parts-Fits x.bytes h.0 in
    let last : get_or x.bytes 11 0 ≡ d = rw e (get_or_of_append 11 base (d ∷ []) 0 l) in
    let tail : drop 11 x.bytes ≡ d ∷ [] = rw e (drop_of_append 11 base (d ∷ []) l) in
    let found : sub8 d b'0' ≡ d - b'0' = omega arith in
    let back : b'0' + sub8 d b'0' ≡ d = omega arith in
    (
      rw (last, back)
          (ap (λ r. take 2 x.bytes ++ (take 9 (drop 2 x.bytes) ++ r))
              (sym (drop-drop x.bytes ∙ tail))
            ∙ ap (λ r. take 2 x.bytes ++ r) (take-append-drop 9 (drop 2 x.bytes))
            ∙ take-append-drop 2 x.bytes),
      check_digit_of_check x.bytes ((check_of_Fits x.bytes h.0).1 h.1),
      rw last (omega arith),
    )

-- A parsed identifier is its country code, its NSIN and its check digit, which is the one that
-- the code computes from the rest.
pub parse_accessors :
    (s : Text) {x : Isin}
    → parse s ≡ ok x
    → (country_code x ++ (nsin x ++ ((b'0' + check_digit x) ∷ [])) ≡ as_str x)
      × (check_digit x ≡ computed_check_digit x)
      × (check_digit x ≤ 9)
parse_accessors s {x} e = accessors_of_IsIsin x (parse-IsIsin s e)
