-- ===== src/Examples/Leis.antt =====
-- `Lei` at the identifier of Bloomberg's finance company.
use valqeron.Base.{ℕ, ◌≡◌, ◌↔◌, ◌⊎◌, refl, ok, ◌∷◌, ◌++◌, arith}
use valqeron.Text.{Text, codes, trim, trim_start, trim_end, is_whitespace, to_ascii_uppercase}
use valqeron.Identifiers.Fixed
use valqeron.Identifiers.Lei
use valqeron.Identifiers.Lei.Errors.{Twins}
use valqeron.Identifiers.Lei.Format.{IsLei, from_bytes-IsLei}
use valqeron.Identifiers.Lei.Residue.{residue, fold_mod_97-residue}
use valqeron.Identifiers.Lei.Slips.{lei-from_bytes_one_character, fold_mod_97_swapped_iff}

abbrev bloomberg_text : Text
bloomberg_text = codes "5493000IBP32UQZ0KL24"

abbrev bloomberg : Lei.Lei
bloomberg = record { bytes = bloomberg_text }

bloomberg_accepted : Lei.from_bytes bloomberg_text ≡ ok bloomberg
unfolding Lei.from_bytes Lei.validate Lei.validate_character_classes Lei.fault Lei.class_at
    Lei.validate_check_digits Lei.compute_check_digits Lei.found_check_digits Lei.fold_mod_97
    Lei.fold_round Fixed.check_each
bloomberg_accepted = refl

bloomberg_parses : Lei.parse bloomberg_text ≡ ok bloomberg
unfolding Lei.parse Lei.normalize Fixed.normalize Fixed.fill trim trim_start trim_end is_whitespace
    to_ascii_uppercase
bloomberg_parses = bloomberg_accepted

from_bytes-IsLei_example : (Lei.from_bytes bloomberg_text ≡ ok bloomberg) ↔ IsLei bloomberg_text
from_bytes-IsLei_example = from_bytes-IsLei bloomberg_text refl

fold_mod_97-residue_example : Lei.fold_mod_97 0 bloomberg_text ≡ residue bloomberg_text
fold_mod_97-residue_example = fold_mod_97-residue bloomberg_text (ground arith)

lei-from_bytes_one_character_example : ◌≡◌ {A = ℕ} b'B' b'B'
lei-from_bytes_one_character_example =
    lei-from_bytes_one_character (codes "5493000I") (codes "P32UQZ0KL24") b'B' b'B' refl
      (ground arith) bloomberg_accepted bloomberg_accepted

fold_mod_97_swapped_iff_example :
    (Lei.fold_mod_97 0 (codes "54" ++ (b'1' ∷ b'B' ∷ codes "Q"))
      ≡ Lei.fold_mod_97 0 (codes "54" ++ (b'B' ∷ b'1' ∷ codes "Q")))
    ↔ (◌≡◌ {A = ℕ} b'1' b'B' ⊎ Twins b'1' b'B' ⊎ Twins b'B' b'1')
fold_mod_97_swapped_iff_example =
    fold_mod_97_swapped_iff (codes "54") (codes "Q") b'1' b'B' (ground arith) (ground arith)
      (ground arith) (ground arith)
