-- ===== src/Identifiers/Cfi/Format.antt =====
-- What the parser of cfi.rs accepts: what its searches find, and that this is what the table lists.
use valqeron.Base.{
  ℕ, zero, suc, replicate, All, ◌+◌, ◌≡◌, ◌≢◌, ◌↔◌, inl, inr, refl, sym, ap, ◌∙◌, subst, true, List,
  [], ◌∷◌, Option, none, some, arith, length, ok, >>=-eq-ok, All-map_imp, Bool-cases, get_or, drop,
}
use valqeron.Domain.Steps.{Pairwise, Any}
use valqeron.Text.{Text, Bytes}
use valqeron.Identifiers.Common.{
  CharacterClass, letter, InClass, IsLetter, alphanumeric, Fits, Fits-alphanumeric, length-Fits,
}
use valqeron.Identifiers.Fixed.{
  check_each_iff, IsCanonical, alphanumeric-IsCanonical, normalize-IsCanonical, normalize-ok,
}
use valqeron.Identifiers.Cfi.Tables.{search-Any, Any-search, HasLetter, attr_allows_iff}
use valqeron.Identifiers.Cfi.Defs.{
  Cfi, CfiCategoryEntry, CfiGroupEntry, CfiError, empty, invalid_length, not_ascii, fault,
  validate_character_classes, validate_taxonomy, validate, from_bytes, normalize, parse, as_str,
  find_category, find_group, attr_allows, check_attributes, ok_or, unknown_category, unknown_group,
}

-- Every attribute passes the test of its mask.
abbrev pub Passes : List ℕ → ℕ → Bytes → Type 0
Passes attrs i [] = Unit
Passes attrs i (code ∷ rest) =
    (attr_allows (get_or attrs i 0) code ≡ true) × Passes attrs (i + 1) rest

abbrev pub IsSixLetters : Bytes → Type 0
IsSixLetters bs = Fits (letter ∷ letter ∷ letter ∷ letter ∷ letter ∷ letter ∷ []) bs

-- Six capital letters: a category that the search finds, a group that it finds in that category, and
-- four attributes that pass the tests of the group.
pub record IsFound (categories : List CfiCategoryEntry) (bs : Bytes) : Type 0 where
  pub letters : IsSixLetters bs
  pub category : CfiCategoryEntry
  pub known_category : find_category categories (get_or bs 0 0) ≡ some category
  pub group : CfiGroupEntry
  pub known_group : find_group category (get_or bs 1 0) ≡ some group
  pub passed : Passes group.attrs 0 (drop 2 bs)

all_letters : ℕ → CharacterClass
all_letters i = letter

fault_iff : (i b : ℕ) → (fault i b ≡ none) ↔ InClass (all_letters i) b
unfolding fault all_letters
fault_iff i b = ground arith

classes_iff :
    (bs : Bytes) → length bs ≡ 6 → (validate_character_classes bs ≡ ok tt) ↔ IsSixLetters bs
unfolding validate_character_classes all_letters
classes_iff bs l = check_each_iff fault all_letters fault_iff 6 bs l

check_attributes_iff :
    (c g : ℕ) (attrs : List ℕ) (i : ℕ) (bs : Bytes)
    → (check_attributes c g attrs i bs ≡ ok tt) ↔ Passes attrs i bs
unfolding check_attributes
check_attributes_iff c g attrs i [] = (λ _. tt, λ _. refl)
check_attributes_iff c g attrs i (code ∷ bs) =
    let rest = check_attributes_iff c g attrs (i + 1) bs in
    elim (Bool-cases (attr_allows (get_or attrs i 0) code)) [
      | inl y ↦ (λ e. (y, rest.0 (rw y at e)), λ h. rw y (rest.1 h.1))
      | inr n ↦ (λ e. absurd (cc (rw n at e)), λ h. absurd (cc (n, h.0)))
    ]

ok_or-ok : {A : Type 0} (o : Option A) (e : CfiError) {a : A} → ok_or o e ≡ ok a → o ≡ some a
ok_or-ok none e h = cc h
ok_or-ok (some b) e h = cc h

module _ (categories : List CfiCategoryEntry) where
  taxonomy-IsFound :
      (bs : Bytes)
      → IsSixLetters bs
      → validate_taxonomy categories bs ≡ ok tt
      → IsFound categories bs
  unfolding validate_taxonomy
  taxonomy-IsFound bs letters e =
      let c = get_or bs 0 0 in
      let g = get_or bs 1 0 in
      let (category, h, rest) =
        >>=-eq-ok (ok_or (find_category categories c) (unknown_category c)) _ e in
      let (group, k, last) = >>=-eq-ok (ok_or (find_group category g) (unknown_group c g)) _ rest in
      record {
        letters = letters;
        category = category;
        known_category = ok_or-ok (find_category categories c) _ h;
        group = group;
        known_group = ok_or-ok (find_group category g) _ k;
        passed = (check_attributes_iff c g group.attrs 0 (drop 2 bs)).0 last;
      }

  IsFound-taxonomy : (bs : Bytes) → IsFound categories bs → validate_taxonomy categories bs ≡ ok tt
  unfolding validate_taxonomy
  IsFound-taxonomy bs h =
      rw (h.known_category, h.known_group)
        ((check_attributes_iff (get_or bs 0 0) (get_or bs 1 0) h.group.attrs 0 (drop 2 bs)).1
          h.passed)

  -- Six bytes are accepted exactly if the searches find them.
  pub from_bytes-IsFound :
      (bs : Bytes)
      → length bs ≡ 6
      → (from_bytes categories bs ≡ ok (record { bytes = bs })) ↔ IsFound categories bs
  unfolding from_bytes validate
  from_bytes-IsFound bs l = (
    λ e.
        let (_, v, _) = >>=-eq-ok (validate categories bs) _ e in
        let (_, e₁, rest) = >>=-eq-ok (validate_character_classes bs) _ v in
        let (_, e₂, _) = >>=-eq-ok (validate_taxonomy categories bs) _ rest in
        taxonomy-IsFound bs ((classes_iff bs l).0 e₁) e₂,
    λ h. rw ((classes_iff bs l).1 h.letters, IsFound-taxonomy bs h) refl,
  )

  from_bytes-bytes :
      (bs : Bytes) {x : Cfi} → from_bytes categories bs ≡ ok x → x ≡ record { bytes = bs }
  unfolding from_bytes
  from_bytes-bytes bs e = let (_, _, last) = >>=-eq-ok (validate categories bs) _ e in cc last

  pub parse-IsFound : (s : Text) {x : Cfi} → parse categories s ≡ ok x → IsFound categories x.bytes
  unfolding parse normalize
  parse-IsFound s {x} e =
      let (candidate, n, e') = >>=-eq-ok (normalize s) _ e in
      let (l, _) = normalize-ok not_ascii 6 empty invalid_length s n in
      let same = from_bytes-bytes candidate e' in
      subst (λ (y : Cfi). IsFound categories y.bytes) (sym same)
        ((from_bytes-IsFound candidate l).0 (e' ∙ ap ok same))

  six-ne-nil : (bs : Bytes) → length bs ≡ 6 → bs ≢ []
  six-ne-nil bs l e = absurd (omega (arith, ap length e))

  pub parse_of_IsFound : (x : Cfi) → IsFound categories x.bytes → parse categories (as_str x) ≡ ok x
  unfolding parse normalize
  parse_of_IsFound x h =
      let six = letter ∷ letter ∷ letter ∷ letter ∷ letter ∷ letter ∷ [] in
      let canonical =
        All-map_imp (InClass alphanumeric) IsCanonical alphanumeric-IsCanonical x.bytes
          (Fits-alphanumeric six x.bytes h.letters) in
      let l = length-Fits six x.bytes h.letters in
      rw
        (normalize-IsCanonical not_ascii 6 empty invalid_length x.bytes canonical l
          (six-ne-nil x.bytes l))
        ((from_bytes-IsFound x.bytes l).1 h)

  -- The text of a parsed classification parses to the same one.
  pub cfi-parse-as_str :
      (s : Text) {x : Cfi} → parse categories s ≡ ok x → parse categories (as_str x) ≡ ok x
  cfi-parse-as_str s {x} e = parse_of_IsFound x (parse-IsFound s e)

-- Four attributes, each among the letters of its mask, from place `i` on.
abbrev pub Allowed : List ℕ → ℕ → Bytes → Type 0
Allowed attrs i [] = Unit
Allowed attrs i (code ∷ rest) = HasLetter (get_or attrs i 0) code × Allowed attrs (i + 1) rest

masks_iff :
    (attrs : List ℕ) (i : ℕ) (bs : Bytes) → All IsLetter bs → Passes attrs i bs ↔ Allowed attrs i bs
masks_iff attrs i [] h = (λ _. tt, λ _. tt)
masks_iff attrs i (code ∷ bs) h =
    let bit = attr_allows_iff (get_or attrs i 0) code h.0.0 (omega (arith, h.0.1)) in
    let rest = masks_iff attrs (i + 1) bs h.1 in
    (λ p. (bit.0 p.0, rest.0 p.1), λ a. (bit.1 a.0, rest.1 a.1))

Fits-letters : (n : ℕ) (bs : Bytes) → Fits (replicate n letter) bs → All IsLetter bs
Fits-letters zero [] h = tt
Fits-letters zero (b ∷ bs) h = absurd h
Fits-letters (suc n) [] h = absurd h
Fits-letters (suc n) (b ∷ bs) h = (h.0, Fits-letters n bs h.1)

drop-letters : (n : ℕ) (bs : Bytes) → All IsLetter bs → All IsLetter (drop n bs)
drop-letters zero bs h = h
drop-letters (suc n) [] h = tt
drop-letters (suc n) (b ∷ bs) h = drop-letters n bs h.1

-- The table has no code twice, neither among its categories nor among the groups of one.
abbrev pub HasDistinctCodes : List CfiCategoryEntry → Type 0
HasDistinctCodes categories =
    Pairwise (λ x y. x.code ≢ y.code) categories
    × All (λ c. Pairwise (λ x y. x.code ≢ y.code) c.groups) categories

-- Six capital letters: the table lists the first as a category, and that category the second as a
-- group, whose masks have the other four in their places.
pub record IsCfi (categories : List CfiCategoryEntry) (bs : Bytes) : Type 0 where
  pub letters : IsSixLetters bs
  pub listed :
      Any
        (λ category.
          (category.code ≡ get_or bs 0 0)
          × Any
              (λ group. (group.code ≡ get_or bs 1 0) × Allowed group.attrs 0 (drop 2 bs))
              category.groups)
        categories

All-Any :
    {A : Type 0} (P Q : A → Type 0) (R : A → Type 0) (l : List A)
    → All P l
    → Any (λ x. Q x × R x) l
    → Any (λ x. Q x × (P x × R x)) l
All-Any P Q R [] a h = h
All-Any P Q R (x ∷ l) a (inl (q, r)) = inl (q, (a.0, r))
All-Any P Q R (x ∷ l) a (inr later) = inr (All-Any P Q R l a.1 later)

module _ (categories : List CfiCategoryEntry) where
  attributes_iff :
      (bs : Bytes)
      → IsSixLetters bs
      → (attrs : List ℕ) → Passes attrs 0 (drop 2 bs) ↔ Allowed attrs 0 (drop 2 bs)
  attributes_iff bs letters attrs =
      masks_iff attrs 0 (drop 2 bs) (drop-letters 2 bs (Fits-letters 6 bs letters))

  IsFound-IsCfi : (bs : Bytes) → IsFound categories bs → IsCfi categories bs
  unfolding find_category find_group
  IsFound-IsCfi bs h = record {
    letters = h.letters;
    listed =
        search-Any (λ c. c.code) (get_or bs 0 0) _ categories h.known_category
          (search-Any (λ g. g.code) (get_or bs 1 0) _ h.category.groups h.known_group
            ((attributes_iff bs h.letters h.group.attrs).0 h.passed));
  }

  IsCfi-IsFound :
      (bs : Bytes) → HasDistinctCodes categories → IsCfi categories bs → IsFound categories bs
  unfolding find_category find_group
  IsCfi-IsFound bs (cd, gd) h =
      let (category, found, (distinct, groups)) =
        Any-search (λ c. c.code) (get_or bs 0 0) _ categories cd
          (All-Any (λ c. Pairwise (λ x y. x.code ≢ y.code) c.groups) (λ c. c.code ≡ get_or bs 0 0) _
            categories gd h.listed) in
      let (group, known, allowed) =
        Any-search (λ g. g.code) (get_or bs 1 0) _ category.groups distinct groups in
      record {
        letters = h.letters;
        category = category;
        known_category = found;
        group = group;
        known_group = known;
        passed = (attributes_iff bs h.letters group.attrs).1 allowed;
      }

  -- Where the table has no code twice, six bytes are accepted, and kept as they are, exactly if they
  -- are capital letters of which the table lists the first as a category and the second as a group
  -- of it, and the masks of that group have the other four in their places.
  pub from_bytes-IsCfi :
      (bs : Bytes)
      → HasDistinctCodes categories
      → length bs ≡ 6
      → (from_bytes categories bs ≡ ok (record { bytes = bs })) ↔ IsCfi categories bs
  from_bytes-IsCfi bs distinct l =
      let found = from_bytes-IsFound categories bs l in
      (λ e. IsFound-IsCfi bs (found.0 e), λ h. found.1 (IsCfi-IsFound bs distinct h))
