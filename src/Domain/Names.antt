-- ===== src/Domain/Names.antt =====
-- The bounded names: `IssuerName`, `SecurityName`, `VenueName` and `MarketSegment` of
-- crates/core/src/domain and `BackgroundTaskName` of crates/core/src/tasks.rs. Each is a newtype of
-- a text, and their error types have the same two cases.
use valqeron.Base.{
  ℕ, ◌≤◌, ◌≡◌, ◌≢◌, ◌↔◌, refl, sym, ap, ◌∙◌, true, false, [], ◌∷◌, arith, ltb, if◌then◌else◌,
  length, is_empty, ◌⊎◌, inl, inr, Result, ok, err,
}
use valqeron.Text.{Text, trim, trim-trim}

pub data NameError : Type 0 where
  empty : NameError
  too_long : ℕ → NameError

-- The body that the constructors of these names share.
unfoldable pub checked_name : ℕ → Text → Result Text NameError
checked_name max value =
    let trimmed = trim value in
    if is_empty trimmed
    then err empty
    else if ltb max (length trimmed)
    then err (too_long max)
    else ok trimmed

abbrev pub IssuerName : Type 0
IssuerName = Text

abbrev pub SecurityName : Type 0
SecurityName = Text

abbrev pub VenueName : Type 0
VenueName = Text

abbrev pub MarketSegment : Type 0
MarketSegment = Text

abbrev pub issuer_name : Text → Result IssuerName NameError
issuer_name = checked_name 200

abbrev pub security_name : Text → Result SecurityName NameError
security_name = checked_name 200

abbrev pub venue_name : Text → Result VenueName NameError
venue_name = checked_name 200

abbrev pub market_segment : Text → Result MarketSegment NameError
market_segment = checked_name 100

is_empty_cases : (t : Text) → ((is_empty t ≡ true) × (t ≡ [])) ⊎ ((is_empty t ≡ false) × (t ≢ []))
is_empty_cases [] = inl (refl, refl)
is_empty_cases (x ∷ t) = inr (refl, λ e. cc e)

checked_name_inv :
    (max : ℕ) (value name : Text)
    → checked_name max value ≡ ok name
    → (name ≡ trim value) × (name ≢ []) × (length name ≤ max)
unfolding checked_name
checked_name_inv max value name e = elim (is_empty_cases (trim value)) [
  | inl (t, z) ↦ absurd (ground arith)
  | inr (t, ne) ↦ let n : name ≡ trim value = ground arith in (n, rw n ne, ground (arith, n))
]

checked_name_of :
    (max : ℕ) (value name : Text)
    → name ≡ trim value
    → name ≢ []
    → length name ≤ max
    → checked_name max value ≡ ok name
unfolding checked_name
checked_name_of max value name n ne l = elim (is_empty_cases (trim value)) [
  | inl (t, z) ↦ absurd (ne (n ∙ z))
  | inr (t, _) ↦ let l' : length (trim value) ≤ max = rw (sym n) l in rw (t, n) (ground arith)
]

-- A name is accepted exactly if its trimmed text is neither empty nor too long, and then it is that
-- text.
pub checked_name_iff :
    (max : ℕ) (value name : Text)
    → (checked_name max value ≡ ok name) ↔ ((name ≡ trim value) × (name ≢ []) × (length name ≤ max))
unfolding checked_name
checked_name_iff max value name =
    (checked_name_inv max value name, λ h. checked_name_of max value name h.0 h.1 h.2)

-- The text of a name makes the same name again.
pub checked_name_idem :
    (max : ℕ) (value : Text) {name : Text}
    → checked_name max value ≡ ok name
    → checked_name max name ≡ ok name
checked_name_idem max value {name} e =
    let h = (checked_name_iff max value name).0 e in
    (checked_name_iff max name name).1 (h.0 ∙ sym (trim-trim value) ∙ ap trim (sym h.0), h.1, h.2)
