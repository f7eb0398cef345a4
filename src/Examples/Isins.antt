-- ===== src/Examples/Isins.antt =====
-- `Isin` at the identifier of Apple's common stock.
use valqeron.Base.{ℕ, ◌≡◌, ◌↔◌, ◌-◌, ◌%◌, true, refl, ok, arith}
use valqeron.Text.{Text, codes, trim, trim_start, trim_end, is_whitespace, to_ascii_uppercase}
use valqeron.Identifiers.Fixed
use valqeron.Identifiers.Isin
use valqeron.Identifiers.Isin.Format.{IsIsin, from_bytes-IsIsin, from_bytes_one_digit}
use valqeron.Identifiers.Isin.Luhn.{luhn, digits, compute_check_digit-luhn}

abbrev apple_text : Text
apple_text = codes "US0378331005"

abbrev apple : Isin.Isin
apple = record { bytes = apple_text }

apple_accepted : Isin.from_bytes apple_text ≡ ok apple
unfolding Isin.from_bytes Isin.validate Isin.validate_character_classes Isin.fault Isin.class_at
    Isin.is_valid_at Isin.validate_check_digit Isin.compute_check_digit Isin.luhn_loop
    Isin.luhn_round Isin.luhn_step Fixed.check_each
apple_accepted = refl

apple_parses : Isin.parse apple_text ≡ ok apple
unfolding Isin.parse Isin.normalize Fixed.normalize Fixed.fill trim trim_start trim_end
    is_whitespace to_ascii_uppercase
apple_parses = apple_accepted

from_bytes-IsIsin_example : (Isin.from_bytes apple_text ≡ ok apple) ↔ IsIsin apple_text
from_bytes-IsIsin_example = from_bytes-IsIsin apple_text refl

compute_check_digit-luhn_example :
    Isin.compute_check_digit (codes "US037833100")
    ≡ (10 - luhn true (digits (codes "US037833100")) % 10) % 10
compute_check_digit-luhn_example =
    compute_check_digit-luhn (codes "US037833100") (ground arith) (ground arith)

from_bytes_one_digit_example : ◌≡◌ {A = ℕ} b'3' b'3'
from_bytes_one_digit_example =
    from_bytes_one_digit (codes "US0") (codes "78331005") b'3' b'3' refl (ground arith)
      (ground arith) apple_accepted apple_accepted
