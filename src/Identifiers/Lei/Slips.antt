-- ===== src/Identifiers/Lei/Slips.antt =====
-- What the check of `Lei::from_bytes` makes of a character that is written wrongly, and of two that
-- are exchanged.
use valqeron.Base.{
  ℕ, ◌≡◌, ◌↔◌, ◌⊎◌, sym, ◌∙◌, [], ◌∷◌, ◌++◌, arith, All, All-append, length, length-append, ok,
}
use valqeron.Text.{Bytes}
use valqeron.Identifiers.Common.{InClass, alphanumeric, Fits-alphanumeric}
use valqeron.Identifiers.Lei.Defs.{Lei, from_bytes, fold_mod_97}
use valqeron.Identifiers.Lei.Errors.{SameClass, Twins, residue_one_character, residue_swapped_iff}
use valqeron.Identifiers.Lei.Format.{format, from_bytes-ok}
use valqeron.Identifiers.Lei.Residue.{fold_mod_97-residue}

All-front : (a b : Bytes) → All (InClass alphanumeric) (a ++ b) → All (InClass alphanumeric) a
All-front [] b h = tt
All-front (x ∷ a) b h = (h.0, All-front a b h.1)

All-back : (a b : Bytes) → All (InClass alphanumeric) (a ++ b) → All (InClass alphanumeric) b
All-back [] b h = h
All-back (x ∷ a) b h = All-back a b h.1

-- No two arrays that `from_bytes` accepts differ in exactly one place, with digits or with letters
-- in both.
pub lei-from_bytes_one_character :
    (a b : Bytes) (c c' : ℕ) {x y : Lei}
    → length (a ++ (c ∷ b)) ≡ 20
    → SameClass c c'
    → from_bytes (a ++ (c ∷ b)) ≡ ok x
    → from_bytes (a ++ (c' ∷ b)) ≡ ok y
    → c ≡ c'
lei-from_bytes_one_character a b c c' l same e e' =
    let l' : length (a ++ (c' ∷ b)) ≡ 20 =
      omega (arith, length-append a (c ∷ b), length-append a (c' ∷ b)) in
    let h = (from_bytes-ok (a ++ (c ∷ b)) l e).1 in
    let h' = (from_bytes-ok (a ++ (c' ∷ b)) l' e').1 in
    let characters = Fits-alphanumeric format (a ++ (c ∷ b)) h.0 in
    residue_one_character a b c c' (All-front a (c ∷ b) characters)
      (All-back a (c ∷ b) characters).1 same (h.1 ∙ sym h'.1)

-- Exchanging two neighbours leaves the result of `fold_mod_97` as it is exactly when they are equal
-- or a pair of twins, `1` with `B`, `2` with `M` or `3` with `X`, in either order.
pub fold_mod_97_swapped_iff :
    (a b : Bytes) (c c' : ℕ)
    → All (InClass alphanumeric) a
    → All (InClass alphanumeric) b
    → InClass alphanumeric c
    → InClass alphanumeric c'
    → (fold_mod_97 0 (a ++ (c ∷ c' ∷ b)) ≡ fold_mod_97 0 (a ++ (c' ∷ c ∷ b)))
      ↔ ((c ≡ c') ⊎ Twins c c' ⊎ Twins c' c)
fold_mod_97_swapped_iff a b c c' ha hb h h' =
    rw
      (
        fold_mod_97-residue (a ++ (c ∷ c' ∷ b))
            (All-append (InClass alphanumeric) a (c ∷ c' ∷ b) ha (h, (h', hb))),
        fold_mod_97-residue (a ++ (c' ∷ c ∷ b))
            (All-append (InClass alphanumeric) a (c' ∷ c ∷ b) ha (h', (h, hb))),
      )
      (residue_swapped_iff a b c c' ha hb h h')
