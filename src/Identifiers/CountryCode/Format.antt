-- ===== src/Identifiers/CountryCode/Format.antt =====
-- What `from_bytes` and `parse` accept, and their errors.
use valqeron.Base.{
  ℕ, ◌≡◌, ◌≢◌, ◌↔◌, inl, inr, sym, ap, ◌∙◌, subst, true, false, [], ◌∷◌, ◌++◌, map, none, arith,
  length, All, ok, err, ◌>>=◌, >>=-eq-ok, All-map_imp, map-ne-nil, Bool-cases,
}
use valqeron.Text.{Text, Bytes, to_ascii_uppercase, IsWhitespace}
use valqeron.Identifiers.Common.{
  CharacterClass, letter, InClass, alphanumeric, Fits-alphanumeric, length-Fits,
}
use valqeron.Identifiers.Fixed.{
  check_each_iff, IsCanonical, alphanumeric-IsCanonical, normalize-IsCanonical, normalize-ok,
  normalize_padded, normalize-map,
}
use valqeron.Identifiers.CountryCode.Table.{assigned_codes}
use valqeron.Identifiers.CountryCode.Defs.{
  CountryCode, empty, invalid_length, unassigned, not_ascii, is_assigned, fault,
  validate_character_classes, validate_membership, validate, from_bytes, normalize, parse, as_str,
}
use valqeron.Identifiers.CountryCode.Membership.{Listed, IsPair, is_assigned_iff}

-- Two letters that the table lists.
abbrev pub IsCountryCode : Bytes → Type 0
IsCountryCode bytes = IsPair bytes × Listed bytes assigned_codes

all_letters : ℕ → CharacterClass
all_letters i = letter

fault_iff : (i b : ℕ) → (fault i b ≡ none) ↔ InClass (all_letters i) b
unfolding fault all_letters
fault_iff i b = ground arith

classes_iff : (bs : Bytes) → length bs ≡ 2 → (validate_character_classes bs ≡ ok tt) ↔ IsPair bs
unfolding validate_character_classes all_letters
classes_iff bs l = check_each_iff fault all_letters fault_iff 2 bs l

membership_miss :
    (bs : Bytes) → IsPair bs → is_assigned bs ≡ false → validate_membership bs ≡ err (unassigned bs)
unfolding validate_membership
membership_miss (a ∷ b ∷ []) h e = ground arith
membership_miss [] h e = absurd h
membership_miss (a ∷ []) h e = absurd (h.1)
membership_miss (a ∷ b ∷ c ∷ r) h e = absurd (h.1.1)

membership_hit : (bs : Bytes) → is_assigned bs ≡ true → validate_membership bs ≡ ok tt
unfolding validate_membership
membership_hit bs e = rw e

-- Two upper case letters are accepted and kept if the table of ISO 3166-1 lists them, and are
-- reported as unassigned otherwise.
pub from_bytes_pair :
    (bs : Bytes)
    → IsPair bs
    → (Listed bs assigned_codes → from_bytes bs ≡ ok (record { bytes = bs }))
      × (¬ Listed bs assigned_codes → from_bytes bs ≡ err (unassigned bs))
unfolding from_bytes validate
from_bytes_pair bs h =
    let c = (classes_iff bs (length-Fits (letter ∷ letter ∷ []) bs h)).1 h in
    (
      λ l. rw (c, membership_hit bs ((is_assigned_iff bs h).1 l)),
      λ n. rw (c, membership_miss bs h (miss n)),
    )
  where
    miss : ¬ Listed bs assigned_codes → is_assigned bs ≡ false
    miss n = elim (Bool-cases (is_assigned bs)) [
      | inl hit ↦ absurd (n ((is_assigned_iff bs h).0 hit))
      | inr other ↦ other
    ]

membership_iff :
    (bs : Bytes) → IsPair bs → (validate_membership bs ≡ ok tt) ↔ Listed bs assigned_codes
membership_iff bs h = (
  λ e. elim (Bool-cases (is_assigned bs)) [
    | inl hit ↦ (is_assigned_iff bs h).0 hit
    | inr miss ↦ cc (sym e ∙ membership_miss bs h miss)
  ],
  λ l. membership_hit bs ((is_assigned_iff bs h).1 l),
)

validate_iff : (bs : Bytes) → length bs ≡ 2 → (validate bs ≡ ok tt) ↔ IsCountryCode bs
unfolding validate
validate_iff bs l = (sound, complete)
  where
    sound : validate bs ≡ ok tt → IsCountryCode bs
    sound e =
        let (_, e₁, rest) = >>=-eq-ok (validate_character_classes bs) _ e in
        let (_, e₂, _) = >>=-eq-ok (validate_membership bs) _ rest in
        let f = (classes_iff bs l).0 e₁ in (f, (membership_iff bs f).0 e₂)

    complete : IsCountryCode bs → validate bs ≡ ok tt
    complete h = rw ((classes_iff bs l).1 h.0, (membership_iff bs h.0).1 h.1)

pub from_bytes_iff :
    (bs : Bytes) → length bs ≡ 2 → (from_bytes bs ≡ ok (record { bytes = bs })) ↔ IsCountryCode bs
unfolding from_bytes
from_bytes_iff bs l = (
  λ e. let (_, e', _) = >>=-eq-ok (validate bs) _ e in (validate_iff bs l).0 e',
  λ h. rw ((validate_iff bs l).1 h),
)

pub from_bytes-ok :
    (bs : Bytes) {x : CountryCode}
    → length bs ≡ 2
    → from_bytes bs ≡ ok x
    → (x.bytes ≡ bs) × IsCountryCode bs
unfolding from_bytes
from_bytes-ok bs l e =
    let (_, e', last) = >>=-eq-ok (validate bs) _ e in (cc last, (validate_iff bs l).0 e')

pub parse-IsCountryCode : (s : Text) {x : CountryCode} → parse s ≡ ok x → IsCountryCode x.bytes
unfolding parse normalize
parse-IsCountryCode s {x} e =
    let (candidate, n, e') = >>=-eq-ok (normalize s) _ e in
    let (l, _) = normalize-ok not_ascii 2 empty invalid_length s n in
    let (same, h) = from_bytes-ok candidate l e' in subst IsCountryCode (sym same) h

ne-nil_of_length : (bs : Bytes) → length bs ≡ 2 → bs ≢ []
ne-nil_of_length bs l e = absurd (omega (arith, ap length e))

-- The text of an assigned code parses to that code, so the text of a parsed one does too.
pub parse_of_IsCountryCode : (x : CountryCode) → IsCountryCode x.bytes → parse (as_str x) ≡ ok x
unfolding parse normalize
parse_of_IsCountryCode x h =
    let canonical =
      All-map_imp (InClass alphanumeric) IsCanonical alphanumeric-IsCanonical x.bytes
        (Fits-alphanumeric (letter ∷ letter ∷ []) x.bytes h.0) in
    let l = length-Fits (letter ∷ letter ∷ []) x.bytes h.0 in
    rw
      (normalize-IsCanonical not_ascii 2 empty invalid_length x.bytes canonical l
        (ne-nil_of_length x.bytes l))
      ((from_bytes_iff x.bytes l).1 h)

-- The text of a parsed code parses to the same code, and so does the text that was parsed, which
-- is not empty, in upper case and with white space around it.
pub parse_round_trip :
    (v s w : Text) {x : CountryCode}
    → All IsWhitespace v
    → All IsWhitespace w
    → s ≢ []
    → parse s ≡ ok x
    → (parse (as_str x) ≡ ok x) × (parse (v ++ (map to_ascii_uppercase s ++ w)) ≡ ok x)
unfolding parse normalize
parse_round_trip v s w {x} h k ne e = (
  parse_of_IsCountryCode x (parse-IsCountryCode s e),
  ap (λ m. m >>= from_bytes)
        (normalize_padded not_ascii 2 empty invalid_length v (map to_ascii_uppercase s) w h k
            (map-ne-nil to_ascii_uppercase s ne)
          ∙ normalize-map not_ascii 2 empty invalid_length s)
      ∙ e,
)
