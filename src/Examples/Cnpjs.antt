-- ===== src/Examples/Cnpjs.antt =====
-- `Cnpj` at an alphanumeric number.
use valqeron.Base.{ℕ, ◌≡◌, ◌↔◌, refl, ok, [], ◌∷◌, List}
use valqeron.Text.{Text, codes, is_whitespace, to_ascii_uppercase}
use valqeron.Identifiers.Cnpj
use valqeron.Identifiers.Cnpj.Format.{IsCnpj, from_bytes-IsCnpj}
use valqeron.Identifiers.Cnpj.RoundTrip.{parse-formatted}
use valqeron.Identifiers.Fixed

abbrev pub company_text : Text
company_text = codes "12ABC34501DE35"

abbrev pub company : Cnpj.Cnpj
company = record { bytes = company_text }

pub company_parses : Cnpj.parse company_text ≡ ok company
unfolding Cnpj.parse Cnpj.normalize Cnpj.meaningful Cnpj.is_formatting_char Cnpj.from_bytes
    Cnpj.validate Cnpj.validate_character_classes Cnpj.fault Cnpj.class_at
    Cnpj.validate_not_repeated Cnpj.validate_check_digits Cnpj.compute_valid_check_digits
    Cnpj.compute_check_digit Cnpj.weighted_fold Cnpj.from_fn Cnpj.char_value Cnpj.found_at
    Fixed.fill Fixed.check_each is_whitespace to_ascii_uppercase
company_parses = refl

from_bytes-IsCnpj_example : (Cnpj.from_bytes company_text ≡ ok company) ↔ IsCnpj company_text
from_bytes-IsCnpj_example = from_bytes-IsCnpj company_text refl

abbrev values : List ℕ
values = 1 ∷ 2 ∷ 17 ∷ 18 ∷ 19 ∷ 3 ∷ 4 ∷ 5 ∷ 0 ∷ 1 ∷ 20 ∷ 21 ∷ []

parse-formatted_example : Cnpj.parse (Cnpj.formatted company) ≡ ok company
parse-formatted_example = parse-formatted company_text company_parses
