-- ===== src/Identifiers/Mic/Format.antt =====
-- What the parser of mic.rs accepts, and that the accessors of a parsed code do not fail.
use valqeron.Base.{
  ℕ, ◌≡◌, ◌≢◌, ◌↔◌, ◌⊎◌, ◌<◌, inl, inr, refl, sym, ap, ◌∙◌, subst, List, [], ◌∷◌, none, some, arith,
  length, All, ok, >>=-eq-ok, All-map_imp, Bool-cases, Option-cases, get_elem?, zero, suc,
}
use valqeron.Text.{Text, Bytes, text_eq, text_eq_iff}
use valqeron.Domain.Common.{IsGiven}
use valqeron.Identifiers.Common.{
  CharacterClass, alphanumeric, InClass, Fits, Fits-alphanumeric, length-Fits,
}
use valqeron.Identifiers.Fixed.{
  check_each_iff, IsCanonical, alphanumeric-IsCanonical, normalize-IsCanonical, normalize-ok,
}
use valqeron.Identifiers.Mic.Defs.{
  Mic, MicEntry, empty, invalid_length, not_ascii, fault, find, validate_character_classes,
  validate_membership, validate, from_bytes, normalize, parse, as_str, entry, operating_mic,
  from_utf8, is_active, is_segment, country_code, is_operating,
}

abbrev pub IsFourCharacters : Bytes → Type 0
IsFourCharacters bs = Fits (alphanumeric ∷ alphanumeric ∷ alphanumeric ∷ alphanumeric ∷ []) bs

-- Some entry has the code.
abbrev pub Registered : Bytes → List MicEntry → Type 0
Registered bs [] = ⊥
Registered bs (e ∷ entries) = (e.code ≡ bs) ⊎ Registered bs entries

-- Four capital letters or digits that the registry lists.
abbrev pub IsMic : List MicEntry → Bytes → Type 0
IsMic entries bs = IsFourCharacters bs × Registered bs entries

all_alphanumeric : ℕ → CharacterClass
all_alphanumeric i = alphanumeric

fault_iff : (i b : ℕ) → (fault i b ≡ none) ↔ InClass (all_alphanumeric i) b
unfolding fault all_alphanumeric
fault_iff i b = ground arith

classes_iff :
    (bs : Bytes) → length bs ≡ 4 → (validate_character_classes bs ≡ ok tt) ↔ IsFourCharacters bs
unfolding validate_character_classes all_alphanumeric
classes_iff bs l = check_each_iff fault all_alphanumeric fault_iff 4 bs l

find-Registered :
    (entries : List MicEntry) (bs : Bytes) {e : MicEntry}
    → find entries bs ≡ some e
    → Registered bs entries
unfolding find
find-Registered [] bs h = cc h
find-Registered (x ∷ entries) bs h = elim (Bool-cases (text_eq x.code bs)) [
  | inl y ↦ inl ((text_eq_iff x.code bs).0 y)
  | inr n ↦ inr (find-Registered entries bs (rw n at h))
]

Registered-find :
    (entries : List MicEntry) (bs : Bytes)
    → Registered bs entries
    → (e : MicEntry) × (find entries bs ≡ some e)
unfolding find
Registered-find [] bs h = absurd h
Registered-find (x ∷ entries) bs h = elim (Bool-cases (text_eq x.code bs)) [
  | inl y ↦ (x, rw y refl)
  | inr n ↦ elim h [
    | inl same ↦ absurd (cc (n, (text_eq_iff x.code bs).1 same))
    | inr later ↦ let (e, f) = Registered-find entries bs later in (e, rw n f)
  ]
]

module _ (entries : List MicEntry) where
  membership_iff : (bs : Bytes) → (validate_membership entries bs ≡ ok tt) ↔ Registered bs entries
  unfolding validate_membership
  membership_iff bs = (
    λ e. elim (Option-cases (find entries bs)) [
      | inr (x, found) ↦ find-Registered entries bs found
      | inl missed ↦ elim (Option-cases (from_utf8 bs)) [
        | inl n ↦ absurd (cc (rw (missed, n) at e))
        | inr (t, s) ↦ absurd (cc (rw (missed, s) at e))
      ]
    ],
    λ h. let (x, found) = Registered-find entries bs h in rw found refl,
  )

  -- Four bytes are accepted, and kept as they are, exactly if they are capital letters or digits
  -- and the registry lists them.
  pub from_bytes-IsMic :
      (bs : Bytes)
      → length bs ≡ 4
      → (from_bytes entries bs ≡ ok (record { bytes = bs })) ↔ IsMic entries bs
  unfolding from_bytes validate
  from_bytes-IsMic bs l = (
    λ e.
        let (_, v, _) = >>=-eq-ok (validate entries bs) _ e in
        let (_, e₁, rest) = >>=-eq-ok (validate_character_classes bs) _ v in
        let (_, e₂, _) = >>=-eq-ok (validate_membership entries bs) _ rest in
        ((classes_iff bs l).0 e₁, (membership_iff bs).0 e₂),
    λ h. rw ((classes_iff bs l).1 h.0, (membership_iff bs).1 h.1) refl,
  )

  from_bytes-bytes :
      (bs : Bytes) {x : Mic} → from_bytes entries bs ≡ ok x → x ≡ record { bytes = bs }
  unfolding from_bytes
  from_bytes-bytes bs e = let (_, _, last) = >>=-eq-ok (validate entries bs) _ e in cc last

  pub parse-IsMic : (s : Text) {x : Mic} → parse entries s ≡ ok x → IsMic entries x.bytes
  unfolding parse normalize
  parse-IsMic s {x} e =
      let (candidate, n, e') = >>=-eq-ok (normalize s) _ e in
      let (l, _) = normalize-ok not_ascii 4 empty invalid_length s n in
      let same = from_bytes-bytes candidate e' in
      subst (λ (y : Mic). IsMic entries y.bytes) (sym same)
        ((from_bytes-IsMic candidate l).0 (e' ∙ ap ok same))

  four-ne-nil : (bs : Bytes) → length bs ≡ 4 → bs ≢ []
  four-ne-nil bs l e = absurd (omega (arith, ap length e))

  -- The text of a parsed code parses to the same code.
  pub mic-parse-as_str :
      (s : Text) {x : Mic} → parse entries s ≡ ok x → parse entries (as_str x) ≡ ok x
  unfolding parse normalize
  mic-parse-as_str s {x} e =
      let h = parse-IsMic s e in
      let four = alphanumeric ∷ alphanumeric ∷ alphanumeric ∷ alphanumeric ∷ [] in
      let canonical =
        All-map_imp (InClass alphanumeric) IsCanonical alphanumeric-IsCanonical x.bytes
          (Fits-alphanumeric four x.bytes h.0) in
      let l = length-Fits four x.bytes h.0 in
      rw
        (normalize-IsCanonical not_ascii 4 empty invalid_length x.bytes canonical l
          (four-ne-nil x.bytes l))
        ((from_bytes-IsMic x.bytes l).1 h)

  -- Each entry names the entry of an operating code.
  abbrev pub Resolves : List MicEntry → Type 0
  Resolves l = All (λ e. e.operating < length entries) l

  find-Resolves :
      (l : List MicEntry) (bs : Bytes) {e : MicEntry}
      → Resolves l
      → find l bs ≡ some e
      → e.operating < length entries
  unfolding find
  find-Resolves [] bs r h = cc h
  find-Resolves (x ∷ l) bs {e} r h = elim (Bool-cases (text_eq x.code bs)) [
    | inl y ↦
        let same : x ≡ e = cc (rw y at h) in
        subst (λ (z : MicEntry). z.operating < length entries) same r.0
    | inr n ↦ find-Resolves l bs r.1 (rw n at h)
  ]

in_range : {A : Type 0} (xs : List A) (i : ℕ) → i < length xs → (x : A) × (get_elem? xs i ≡ some x)
in_range [] i h = absurd (omega arith)
in_range (x ∷ xs) zero h = (x, refl)
in_range (x ∷ xs) (suc i) h = in_range xs i (omega arith)

-- Where every entry of the registry names an entry of it, the accessors of a parsed code find what
-- they look up: its own entry, and the code of its operator, which the registry lists.
pub parse_lookups :
    (entries : List MicEntry) (s : Text) {x : Mic}
    → Resolves entries entries
    → parse entries s ≡ ok x
    → IsGiven (is_active entries x)
      × IsGiven (is_segment entries x)
      × IsGiven (country_code entries x)
unfolding is_active is_segment is_operating operating_mic country_code entry
parse_lookups entries s {x} r e =
    let (own, found) = Registered-find entries x.bytes ((parse-IsMic entries s e).1) in
    let (op, there) =
      in_range entries own.operating (find-Resolves entries entries x.bytes r found) in
    rw (found, there) (tt, tt, tt)
