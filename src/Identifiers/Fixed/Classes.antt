-- ===== src/Identifiers/Fixed/Classes.antt =====
-- What the checking loop of `validate_character_classes` decides, whatever the test is.
use valqeron.Base.{
  ℕ, suc, ◌+◌, ◌≡◌, refl, inl, inr, [], ◌∷◌, ◌++◌, Option, none, some, Option-cases, arith, length,
  ok, err, ap, ◌∙◌, ◌↔◌, zero, List,
}
use valqeron.Identifiers.Common.{CharacterClass, InClass, Fits}
use valqeron.Text.{Bytes}
use valqeron.Identifiers.Fixed.Defs.{check_each}

module _ {ℓ} {E : Type ℓ} (fault : ℕ → ℕ → Option E) where
  -- No byte of an array that begins at index `i` is at fault.
  abbrev pub Faultless : ℕ → Bytes → Type ℓ
  Faultless i [] = Unit
  Faultless i (b ∷ bs) = (fault i b ≡ none) × Faultless (i + 1) bs

  pub check_each-Faultless : (i : ℕ) (bs : Bytes) → Faultless i bs → check_each fault i bs ≡ ok tt
  unfolding check_each
  check_each-Faultless i [] h = refl
  check_each-Faultless i (b ∷ bs) h = rw h.0 (check_each-Faultless (i + 1) bs h.1)

  pub Faultless-check_each : (i : ℕ) (bs : Bytes) → check_each fault i bs ≡ ok tt → Faultless i bs
  unfolding check_each
  Faultless-check_each i [] e = tt
  Faultless-check_each i (b ∷ bs) e = elim (Option-cases (fault i b)) [
    | inl fine ↦ (fine, Faultless-check_each (i + 1) bs (rw fine at e))
    | inr (x, bad) ↦ cc (rw bad at e)
  ]

  -- Where an error comes from: a byte at fault, with none at fault before it.
  pub record FirstFault (i : ℕ) (bs : Bytes) (e : E) : Type ℓ where
    pub before : Bytes
    pub byte : ℕ
    pub after : Bytes
    pub splits : bs ≡ before ++ (byte ∷ after)
    pub earlier : Faultless i before
    pub faulty : fault (i + length before) byte ≡ some e

  pub check_each-FirstFault :
      (i : ℕ) (bs : Bytes) {e : E} → check_each fault i bs ≡ err e → FirstFault i bs e
  unfolding check_each
  check_each-FirstFault i [] {e} h = cc
  check_each-FirstFault i (b ∷ bs) {e} h = elim (Option-cases (fault i b)) [
    | inl fine ↦
        let f = check_each-FirstFault (i + 1) bs (rw fine at h) in
        let shift : i + suc (length f.before) ≡ i + 1 + length f.before = omega arith in
        record {
          before = b ∷ f.before;
          byte = f.byte;
          after = f.after;
          splits = ap (◌∷◌ b) f.splits;
          earlier = (fine, f.earlier);
          faulty = rw shift f.faulty;
        }
    | inr (x, bad) ↦
        let start : i + 0 ≡ i = omega arith in
        record {
          before = [];
          byte = b;
          after = bs;
          splits = refl;
          earlier = tt;
          faulty = rw start (bad ∙ cc (rw bad at h));
        }
  ]

-- The classes that an array of `n` bytes from index `i` is held to.
abbrev pub classes_from : (ℕ → CharacterClass) → ℕ → ℕ → List CharacterClass
classes_from class i zero = []
classes_from class i (suc n) = class i ∷ classes_from class (i + 1) n

module _ {ℓ} {E : Type ℓ} (fault : ℕ → ℕ → Option E) (class : ℕ → CharacterClass) where
  pub Faultless-Fits :
      ((i b : ℕ) → (fault i b ≡ none) ↔ InClass (class i) b)
      → (i : ℕ) (bs : Bytes) → Faultless fault i bs
      → Fits (classes_from class i (length bs)) bs
  Faultless-Fits agree i [] h = tt
  Faultless-Fits agree i (b ∷ bs) h = ((agree i b).0 h.0, Faultless-Fits agree (i + 1) bs h.1)

  pub Fits-Faultless :
      ((i b : ℕ) → (fault i b ≡ none) ↔ InClass (class i) b)
      → (i : ℕ) (bs : Bytes) → Fits (classes_from class i (length bs)) bs
      → Faultless fault i bs
  Fits-Faultless agree i [] h = tt
  Fits-Faultless agree i (b ∷ bs) h = ((agree i b).1 h.0, Fits-Faultless agree (i + 1) bs h.1)

  -- The checking loop passes exactly the arrays of the format.
  pub check_each_iff :
      ((i b : ℕ) → (fault i b ≡ none) ↔ InClass (class i) b)
      → (n : ℕ) (bs : Bytes) → length bs ≡ n
      → (check_each fault 0 bs ≡ ok tt) ↔ Fits (classes_from class 0 n) bs
  check_each_iff agree n bs l = (
    λ e. rw (← l) (Faultless-Fits agree 0 bs (Faultless-check_each fault 0 bs e)),
    λ h. check_each-Faultless fault 0 bs (Fits-Faultless agree 0 bs (rw (← l) at h)),
  )
