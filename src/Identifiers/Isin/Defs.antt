-- ===== src/Identifiers/Isin/Defs.antt =====
-- The code of isin.rs, in the order of its calls from the bottom up.
use valqeron.Base.{
  ℕ, ◌+◌, ◌-◌, ◌*◌, ◌/◌, ◌%◌, Bool, true, not, ◌||◌, [], ◌∷◌, reverse, Option, none, some, ltb, leb,
  ◌==◌, if◌then◌else◌, u8, u32, sub8, length, get_or, take, drop, Result, ok, err, ◌>>=◌, ◌>>◌,
}
use valqeron.Text.{Text, Bytes, is_ascii_digit, is_ascii_uppercase}
use valqeron.Identifiers.Common.{CharacterClass, digit, letter, alphanumeric}
use valqeron.Identifiers.Fixed.{check_each}
use valqeron.Identifiers.Fixed

abbrev pub base_len : ℕ
base_len = 11

pub record Isin : Type 0 where
  pub bytes : Bytes

pub data IsinError : Type 0 where
  empty : IsinError
  invalid_length : ℕ → IsinError
  invalid_character : ℕ → ℕ → CharacterClass → IsinError
  invalid_check_digit : ℕ → ℕ → IsinError

unfoldable pub luhn_step : ℕ → Bool → ℕ
luhn_step value double =
    let doubled = u32 (value * 2) in
    if double then (if ltb 9 doubled then doubled - 9 else doubled) else value

-- One round of the loop of `compute_check_digit`, on its variables `sum` and `double`.
unfoldable pub luhn_round : ℕ → ℕ × Bool → ℕ × Bool
unfolding luhn_step
luhn_round c (sum, double) =
    let value = u8 (sub8 c b'A' + 10) in
    let units = u32 (sum + luhn_step (value % 10) double) in
    if is_ascii_digit c
    then (u32 (sum + luhn_step (sub8 c b'0') double), not double)
    else (u32 (units + luhn_step (value / 10) (not double)), not (not double))

unfoldable pub luhn_loop : Bytes → ℕ × Bool → ℕ × Bool
luhn_loop [] s = s
luhn_loop (c ∷ cs) s = luhn_loop cs (luhn_round c s)

unfoldable pub compute_check_digit : Bytes → ℕ
unfolding luhn_loop luhn_round
compute_check_digit base = u8 ((10 - (luhn_loop (reverse base) (0, true)).0 % 10) % 10)

unfoldable pub validate_check_digit : Bytes → Result (Unit {0}) IsinError
validate_check_digit candidate =
    let expected = compute_check_digit (take base_len candidate) in
    let found = sub8 (get_or candidate base_len 0) b'0' in
    if not (expected == found) then err (invalid_check_digit expected found) else ok tt

-- The class that the checking loop wants at an index.
unfoldable pub class_at : ℕ → CharacterClass
class_at i = if ltb i 2 then letter else if ltb i base_len then alphanumeric else digit

unfoldable pub is_valid_at : ℕ → ℕ → Bool
is_valid_at i byte =
    if ltb i 2
    then is_ascii_uppercase byte
    else if ltb i base_len
    then is_ascii_digit byte || is_ascii_uppercase byte
    else is_ascii_digit byte

-- The body of the loop of `validate_character_classes`.
unfoldable pub fault : ℕ → ℕ → Option IsinError
unfolding is_valid_at class_at
fault i byte =
    if not (is_valid_at i byte)
    then some (invalid_character byte (u8 (i + 1)) (class_at i))
    else none

unfoldable pub validate_character_classes : Bytes → Result (Unit {0}) IsinError
validate_character_classes candidate = check_each fault 0 candidate

unfoldable pub validate : Bytes → Result (Unit {0}) IsinError
validate candidate = do validate_character_classes candidate; validate_check_digit candidate; ok tt

unfoldable pub from_bytes : Bytes → Result Isin IsinError
from_bytes bytes = do validate bytes; ok (record { bytes = bytes })

-- The error of a character that is not ASCII.
unfoldable pub not_ascii : ℕ → ℕ → IsinError
not_ascii ch i =
    invalid_character ch (u8 (i + 1))
      (if leb i 1 then letter else if leb i 10 then alphanumeric else digit)

unfoldable pub normalize : Text → Result Bytes IsinError
normalize = Fixed.normalize 12 empty invalid_length not_ascii

unfoldable pub parse : Text → Result Isin IsinError
parse input = do candidate ← normalize input; from_bytes candidate

-- `TryFrom<&[u8]>`: a slice of any length.
unfoldable pub try_from_slice : Bytes → Result Isin IsinError
try_from_slice value =
    if length value == 12 then from_bytes value else err (invalid_length (length value))

abbrev pub as_str : Isin → Text
as_str isin = isin.bytes

unfoldable pub country_code : Isin → Text
country_code isin = take 2 (as_str isin)

unfoldable pub nsin : Isin → Text
nsin isin = take 9 (drop 2 (as_str isin))

unfoldable pub check_digit : Isin → ℕ
check_digit isin = sub8 (get_or isin.bytes 11 0) b'0'

unfoldable pub computed_check_digit : Isin → ℕ
computed_check_digit isin = compute_check_digit (take 11 isin.bytes)
