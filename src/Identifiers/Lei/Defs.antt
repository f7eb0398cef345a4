-- ===== src/Identifiers/Lei/Defs.antt =====
-- The code of lei.rs, in the order of its calls from the bottom up.
use valqeron.Base.{
  ℕ, ◌+◌, ◌*◌, ◌/◌, ◌%◌, not, ◌||◌, List, [], ◌∷◌, ◌++◌, Option, none, some, ltb, ◌==◌,
  if◌then◌else◌, u8, u32, sub8, sub32, length, get_elem?, get_or, take, drop, Result, ok, err,
  ◌>>=◌, ◌>>◌,
}
use mathlib.Core.Option
use valqeron.Text.{Text, Bytes, codes, is_ascii_digit, is_ascii_uppercase}
use valqeron.Identifiers.Common.{CharacterClass, digit, alphanumeric}
use valqeron.Identifiers.Fixed.{check_each}
use valqeron.Identifiers.Fixed

abbrev pub base_len : ℕ
base_len = 18

pub record Lei : Type 0 where
  pub bytes : Bytes

pub data LeiError : Type 0 where
  empty : LeiError
  invalid_length : ℕ → LeiError
  invalid_character : ℕ → ℕ → CharacterClass → LeiError
  invalid_check_digits : ℕ → ℕ → LeiError

-- One round of the loop of `fold_mod_97`.
unfoldable pub fold_round : ℕ → ℕ → ℕ
fold_round rem c =
    if is_ascii_digit c
    then u32 (rem * 10 + sub8 c b'0') % 97
    else u32 (rem * 100 + u8 (sub8 c b'A' + 10)) % 97

unfoldable pub fold_mod_97 : ℕ → Bytes → ℕ
fold_mod_97 rem [] = rem
fold_mod_97 rem (c ∷ cs) = fold_mod_97 (fold_round rem c) cs

unfoldable pub compute_check_digits : Bytes → ℕ
compute_check_digits base = u8 (sub32 98 (u32 (fold_mod_97 0 base * 100) % 97))

-- The value of the two digits that a `Lei` ends in.
unfoldable pub found_check_digits : Bytes → ℕ
found_check_digits bytes = u8 (sub8 (get_or bytes 18 0) b'0' * 10 + sub8 (get_or bytes 19 0) b'0')

unfoldable pub validate_check_digits : Bytes → Result (Unit {0}) LeiError
validate_check_digits candidate =
    let expected = compute_check_digits (take base_len candidate) in
    let found = found_check_digits candidate in
    if not (expected == found) then err (invalid_check_digits expected found) else ok tt

-- The class that the checking loop wants at an index.
unfoldable pub class_at : ℕ → CharacterClass
class_at i = if ltb i base_len then alphanumeric else digit

-- The body of the loop of `validate_character_classes`.
unfoldable pub fault : ℕ → ℕ → Option LeiError
unfolding class_at
fault i byte =
    let is_valid =
      if ltb i base_len
      then is_ascii_digit byte || is_ascii_uppercase byte
      else is_ascii_digit byte in
    if not is_valid then some (invalid_character byte (u8 (i + 1)) (class_at i)) else none

unfoldable pub validate_character_classes : Bytes → Result (Unit {0}) LeiError
validate_character_classes candidate = check_each fault 0 candidate

unfoldable pub validate : Bytes → Result (Unit {0}) LeiError
validate candidate = do validate_character_classes candidate; validate_check_digits candidate; ok tt

unfoldable pub from_bytes : Bytes → Result Lei LeiError
from_bytes bytes = do validate bytes; ok (record { bytes = bytes })

-- The error of a character that is not ASCII.
unfoldable pub not_ascii : ℕ → ℕ → LeiError
not_ascii ch i = invalid_character ch (u8 (i + 1)) (if ltb i 18 then alphanumeric else digit)

unfoldable pub normalize : Text → Result Bytes LeiError
normalize = Fixed.normalize 20 empty invalid_length not_ascii

unfoldable pub parse : Text → Result Lei LeiError
parse input = do candidate ← normalize input; from_bytes candidate

-- `TryFrom<&[u8]>`: a slice of any length.
unfoldable pub try_from_slice : Bytes → Result Lei LeiError
try_from_slice value =
    if length value == 20 then from_bytes value else err (invalid_length (length value))

abbrev pub as_str : Lei → Text
as_str lei = lei.bytes

unfoldable pub lou_prefix : Lei → Text
lou_prefix lei = take 4 (as_str lei)

unfoldable pub entity_id : Lei → Text
entity_id lei = take 14 (drop 4 (as_str lei))

unfoldable pub check_digits : Lei → ℕ
check_digits lei = found_check_digits lei.bytes

unfoldable pub computed_check_digits : Lei → ℕ
computed_check_digits lei = compute_check_digits (take 18 lei.bytes)

abbrev pub alphabet : Bytes
alphabet = codes "0123456789ABCDEFGHIJKLMNOPQRSTUVWXYZ"

-- `ALPHANUMERIC[idx]` for each index; `none` is the panic of an index out of bounds.
unfoldable pub pick_all : List ℕ → Option Bytes
pick_all [] = some []
pick_all (idx ∷ rest) =
    let picked = pick_all rest in
    Option.bind (get_elem? alphabet idx) (λ c. Option.map (λ cs. c ∷ cs) picked)

-- The base and its check digits in decimal, ready to validate.
unfoldable pub with_check_digits : Bytes → Bytes
with_check_digits base =
    let check = compute_check_digits base in
    base ++ (u8 (b'0' + check / 10) ∷ u8 (b'0' + check % 10) ∷ [])

unfoldable pub build_valid_lei_bytes : List ℕ → Option Bytes
build_valid_lei_bytes base_indices = Option.map with_check_digits (pick_all base_indices)
