-- ===== src/Identifiers/Lei/Format.antt =====
-- Which arrays `from_bytes` accepts, what `parse` makes of a text, and that the generated
-- identifiers are accepted.
use valqeron.Base.{
  ℕ, ◌+◌, ◌-◌, ◌*◌, ◌%◌, ◌≤◌, ◌<◌, ◌≡◌, ◌≢◌, ◌↔◌, sym, ap, ◌∙◌, subst, List, [], ◌∷◌, ◌++◌, map,
  none, arith, inl, length, get_or, take, All, All-append, split_last, take_of_append,
  get_or_of_append, ok, ◌>>=◌, >>=-eq-ok, All-map_imp, length-append, map-ne-nil,
}
use mathlib.Core.List.{append_assoc}
use valqeron.Text.{Text, Bytes, to_ascii_uppercase, IsWhitespace}
use valqeron.Identifiers.Common.{
  CharacterClass, digit, alphanumeric, IsDigit, InClass, Fits, Fits-alphanumeric, Fits-last,
  length-Fits,
}
use valqeron.Identifiers.Fixed.{
  check_each_iff, IsCanonical, alphanumeric-IsCanonical, normalize-IsCanonical, normalize-ok,
  normalize_padded, normalize-map,
}
use valqeron.Identifiers.Lei.Defs.{
  Lei, empty, invalid_length, not_ascii, class_at, fault, validate_character_classes, fold_round,
  fold_mod_97, compute_check_digits, found_check_digits, validate_check_digits, validate,
  from_bytes, normalize, parse, as_str,
}
use valqeron.Identifiers.Lei.Residue.{residue, fold_mod_97-residue, fold_mod_97-lt, fold-append}

-- Eighteen characters and two check digits.
abbrev base_format : List CharacterClass
base_format =
    alphanumeric ∷ alphanumeric ∷ alphanumeric ∷ alphanumeric ∷ alphanumeric ∷ alphanumeric
    ∷ alphanumeric ∷ alphanumeric ∷ alphanumeric ∷ alphanumeric ∷ alphanumeric ∷ alphanumeric
    ∷ alphanumeric ∷ alphanumeric ∷ alphanumeric ∷ alphanumeric ∷ alphanumeric ∷ alphanumeric ∷ []

abbrev pub format : List CharacterClass
format = base_format ++ (digit ∷ digit ∷ [])

-- The number that the last two of twenty bytes spell.
abbrev pub check_value : Bytes → ℕ
check_value bytes = (get_or bytes 18 0 - 48) * 10 + (get_or bytes 19 0 - 48)

-- ISO 17442: the format, residue 1 modulo 97, and check digits that are not the reserved 00, 01
-- and 99.
abbrev pub IsLei : Bytes → Type 0
IsLei bytes =
    Fits format bytes × (residue bytes ≡ 1) × (2 ≤ check_value bytes) × (check_value bytes ≤ 98)

fault_iff : (i b : ℕ) → (fault i b ≡ none) ↔ InClass (class_at i) b
unfolding fault
fault_iff i b = ground arith

classes_iff :
    (bs : Bytes) → length bs ≡ 20 → (validate_character_classes bs ≡ ok tt) ↔ Fits format bs
unfolding validate_character_classes class_at
classes_iff bs l = check_each_iff fault class_at fault_iff 20 bs l

-- The base and the two check digits apart.
record Parts (bs : Bytes) : Type 0 where
  base : Bytes
  tens : ℕ
  ones : ℕ
  splits : bs ≡ base ++ (tens ∷ ones ∷ [])
  length_base : length base ≡ 18
  alnum : All (InClass alphanumeric) base
  tens_digit : IsDigit tens
  ones_digit : IsDigit ones

Parts-Fits : (bs : Bytes) → Fits format bs → Parts bs
Parts-Fits bs f =
    let (front, y, e, l) = split_last 19 bs (length-Fits format bs f) in
    let (f', ky) =
      Fits-last (base_format ++ (digit ∷ [])) digit front y (sym l) (subst (Fits format) e f) in
    let (base, x, e', l') = split_last 18 front l in
    let (f'', kx) =
      Fits-last base_format digit base x (sym l')
        (subst (Fits (base_format ++ (digit ∷ []))) e' f') in
    record {
      base = base;
      tens = x;
      ones = y;
      splits = e ∙ ap (λ r. r ++ (y ∷ [])) e' ∙ append_assoc base (x ∷ []) (y ∷ []);
      length_base = l';
      alnum = Fits-alphanumeric base_format base f'';
      tens_digit = kx;
      ones_digit = ky;
    }

last_two :
    (base : Bytes) (x y : ℕ)
    → length base ≡ 18
    → (get_or (base ++ (x ∷ y ∷ [])) 18 0 ≡ x) × (get_or (base ++ (x ∷ y ∷ [])) 19 0 ≡ y)
last_two base x y l = (
  get_or_of_append 18 base (x ∷ y ∷ []) 0 l,
  rw (← append_assoc base (x ∷ []) (y ∷ [])) (
      get_or_of_append 19 (base ++ (x ∷ [])) (y ∷ []) 0
        (omega (arith, length-append base (x ∷ []), l))),
)

fold_two :
    (r x y : ℕ)
    → IsDigit x
    → IsDigit y
    → r < 97
    → fold_mod_97 r (x ∷ y ∷ []) ≡ (r * 100 + ((x - 48) * 10 + (y - 48))) % 97
unfolding fold_mod_97 fold_round
fold_two r x y h k l = ground arith

compute_lem : (base : Bytes) → compute_check_digits base ≡ 98 - fold_mod_97 0 base * 100 % 97
unfolding compute_check_digits
compute_lem base = omega (arith, fold_mod_97-lt 0 base (omega arith))

-- The check digits read by the code are those of the description.
values_lem :
    (base : Bytes) (x y : ℕ)
    → length base ≡ 18
    → IsDigit x
    → IsDigit y
    → let bs = base ++ (x ∷ y ∷ []) in
      (found_check_digits bs ≡ (x - 48) * 10 + (y - 48))
      × (check_value bs ≡ (x - 48) * 10 + (y - 48))
unfolding found_check_digits
values_lem base x y l h k =
    let (first, second) = last_two base x y l in
    (rw (first, second) (omega arith), rw (first, second))

residue_lem :
    (base : Bytes) (x y : ℕ)
    → All (InClass alphanumeric) base
    → IsDigit x
    → IsDigit y
    → residue (base ++ (x ∷ y ∷ [])) ≡ (fold_mod_97 0 base * 100 + ((x - 48) * 10 + (y - 48))) % 97
residue_lem base x y h kx ky =
    sym (
      fold_mod_97-residue (base ++ (x ∷ y ∷ []))
        (All-append (InClass alphanumeric) base (x ∷ y ∷ []) h (inl kx, (inl ky, tt))))
    ∙ fold-append 0 base (x ∷ y ∷ [])
    ∙ fold_two (fold_mod_97 0 base) x y kx ky (fold_mod_97-lt 0 base (omega arith))

-- Computed check digits and residue 1.
checksum :
    (r v : ℕ)
    → r < 97
    → v ≤ 99
    → (98 - r * 100 % 97 ≡ v) ↔ (((r * 100 + v) % 97 ≡ 1) × (2 ≤ v) × (v ≤ 98))
checksum r v h k = (λ e. omega arith, λ e. omega arith)

validate_check_digits_iff :
    (bs : Bytes)
    → (validate_check_digits bs ≡ ok tt)
      ↔ (compute_check_digits (take 18 bs) ≡ found_check_digits bs)
unfolding validate_check_digits
validate_check_digits_iff bs = (λ e. ground arith, λ e. ground arith)

check_iff :
    (base : Bytes) (x y : ℕ)
    → length base ≡ 18
    → All (InClass alphanumeric) base
    → IsDigit x
    → IsDigit y
    → let bs = base ++ (x ∷ y ∷ []) in
      (validate_check_digits bs ≡ ok tt)
      ↔ ((residue bs ≡ 1) × (2 ≤ check_value bs) × (check_value bs ≤ 98))
check_iff base x y l h kx ky =
    let (found, value) = values_lem base x y l kx ky in
    let sums =
      checksum (fold_mod_97 0 base) ((x - 48) * 10 + (y - 48)) (fold_mod_97-lt 0 base (omega arith))
        (omega arith) in
    let valid = validate_check_digits_iff (base ++ (x ∷ y ∷ [])) in
    let front = ap compute_check_digits (take_of_append 18 base (x ∷ y ∷ []) l) in
    (
      λ e.
          rw (residue_lem base x y h kx ky, value)
            (sums.0 (sym (compute_lem base) ∙ sym front ∙ valid.0 e ∙ found)),
      λ e. valid.1 (
          front
          ∙ compute_lem base
          ∙ sums.1 (rw (residue_lem base x y h kx ky, value) at e)
          ∙ sym found),
    )

check_of_Fits :
    (bs : Bytes)
    → Fits format bs
    → (validate_check_digits bs ≡ ok tt)
      ↔ ((residue bs ≡ 1) × (2 ≤ check_value bs) × (check_value bs ≤ 98))
check_of_Fits bs f =
    let p = Parts-Fits bs f in
    subst
      (λ b.
        (validate_check_digits b ≡ ok tt)
        ↔ ((residue b ≡ 1) × (2 ≤ check_value b) × (check_value b ≤ 98)))
      (sym p.splits)
      (check_iff p.base p.tens p.ones p.length_base p.alnum p.tens_digit p.ones_digit)

validate_iff : (bs : Bytes) → length bs ≡ 20 → (validate bs ≡ ok tt) ↔ IsLei bs
unfolding validate
validate_iff bs l = (sound, complete)
  where
    sound : validate bs ≡ ok tt → IsLei bs
    sound e =
        let (_, e₁, rest) = >>=-eq-ok (validate_character_classes bs) _ e in
        let (_, e₂, _) = >>=-eq-ok (validate_check_digits bs) _ rest in
        let f = (classes_iff bs l).0 e₁ in
        let (one, low, high) = (check_of_Fits bs f).0 e₂ in (f, one, low, high)

    complete : IsLei bs → validate bs ≡ ok tt
    complete h = rw ((classes_iff bs l).1 h.0, (check_of_Fits bs h.0).1 (h.1, h.2, h.3))

-- `from_bytes` accepts exactly the arrays of twenty bytes that have the ISO 17442 format, residue
-- 1 modulo 97, and check digits between 02 and 98: residue 1 alone does not do.
pub from_bytes-IsLei :
    (bs : Bytes) → length bs ≡ 20 → (from_bytes bs ≡ ok (record { bytes = bs })) ↔ IsLei bs
unfolding from_bytes
from_bytes-IsLei bs l = (
  λ e. let (_, e', _) = >>=-eq-ok (validate bs) _ e in (validate_iff bs l).0 e',
  λ h. rw ((validate_iff bs l).1 h),
)

pub from_bytes-ok :
    (bs : Bytes) {x : Lei} → length bs ≡ 20 → from_bytes bs ≡ ok x → (x.bytes ≡ bs) × IsLei bs
unfolding from_bytes
from_bytes-ok bs l e =
    let (_, e', last) = >>=-eq-ok (validate bs) _ e in (cc last, (validate_iff bs l).0 e')

pub parse-IsLei : (s : Text) {x : Lei} → parse s ≡ ok x → IsLei x.bytes
unfolding parse normalize
parse-IsLei s {x} e =
    let (candidate, n, e') = >>=-eq-ok (normalize s) _ e in
    let (l, _) = normalize-ok not_ascii 20 empty invalid_length s n in
    let (same, h) = from_bytes-ok candidate l e' in subst IsLei (sym same) h

ne-nil_of_length : (bs : Bytes) → length bs ≡ 20 → bs ≢ []
ne-nil_of_length bs l e = absurd (omega (arith, ap length e))

-- The text of a parsed identifier parses to the same identifier.
pub lei-parse-as_str : (s : Text) {x : Lei} → parse s ≡ ok x → parse (as_str x) ≡ ok x
unfolding parse normalize
lei-parse-as_str s {x} e =
    let h = parse-IsLei s e in
    let canonical =
      All-map_imp (InClass alphanumeric) IsCanonical alphanumeric-IsCanonical x.bytes
        (Fits-alphanumeric format x.bytes h.0) in
    let l = length-Fits format x.bytes h.0 in
    rw
      (normalize-IsCanonical not_ascii 20 empty invalid_length x.bytes canonical l
        (ne-nil_of_length x.bytes l))
      ((from_bytes-IsLei x.bytes l).1 h)

-- White space around a text that is not empty and the case of its ASCII letters make no
-- difference to `parse`: not to what it returns, and not to its errors.
pub lei-parse_padded :
    (v s w : Text)
    → All IsWhitespace v
    → All IsWhitespace w
    → s ≢ []
    → parse (v ++ (map to_ascii_uppercase s ++ w)) ≡ parse s
unfolding parse normalize
lei-parse_padded v s w h k ne =
    ap (λ m. m >>= from_bytes)
      (normalize_padded not_ascii 20 empty invalid_length v (map to_ascii_uppercase s) w h k
          (map-ne-nil to_ascii_uppercase s ne)
        ∙ normalize-map not_ascii 20 empty invalid_length s)
