-- ===== src/Identifiers/Cnpj/Defs.antt =====
-- The code of cnpj.rs, in the order of its calls from the bottom up.
use Prim.Native.Nat.{min}
use valqeron.Base.{
  ℕ, zero, suc, ◌+◌, ◌-◌, ◌*◌, ◌%◌, Bool, not, ◌||◌, List, [], ◌∷◌, map, Option, none, some, ltb,
  leb, ◌==◌, if◌then◌else◌, u32_max, length, get_elem?, get_or, take, drop, is_empty, all, Result,
  ok, err, ◌>>=◌, ◌>>◌,
}
use valqeron.Text.{Text, Bytes, codes, is_ascii_digit, is_ascii_uppercase, is_whitespace, text_eq}
use valqeron.Identifiers.Common.{CharacterClass, digit, alphanumeric}
use valqeron.Identifiers.Fixed.{fill, check_each}

abbrev pub weights_dv1 : List ℕ
weights_dv1 = 5 ∷ 4 ∷ 3 ∷ 2 ∷ 9 ∷ 8 ∷ 7 ∷ 6 ∷ 5 ∷ 4 ∷ 3 ∷ 2 ∷ []

abbrev pub weights_dv2 : List ℕ
weights_dv2 = 6 ∷ 5 ∷ 4 ∷ 3 ∷ 2 ∷ 9 ∷ 8 ∷ 7 ∷ 6 ∷ 5 ∷ 4 ∷ 3 ∷ 2 ∷ []

abbrev pub base_len : ℕ
base_len = 12

pub record Cnpj : Type 0 where
  pub bytes : Bytes

pub data CnpjError : Type 0 where
  empty : CnpjError
  invalid_length : ℕ → CnpjError
  invalid_character : ℕ → ℕ → CharacterClass → CnpjError
  invalid_check_digits : ℕ → ℕ → ℕ → CnpjError
  repeated_digits : CnpjError

-- `u8::try_from(x).unwrap_or(0)`
abbrev try_u8 : ℕ → ℕ
try_u8 x = if ltb x 256 then x else 0

-- `byte.saturating_sub(b'0')`: subtraction on ℕ stops at 0 too.
unfoldable pub char_value : ℕ → ℕ
char_value byte = byte - b'0'

-- The fold over the zipped values and weights, with its saturating operations.
unfoldable pub weighted_fold : ℕ → List ℕ → List ℕ → ℕ
weighted_fold acc [] ws = acc
weighted_fold acc (v ∷ vs) [] = acc
weighted_fold acc (v ∷ vs) (w ∷ ws) = weighted_fold (min u32_max (acc + min u32_max (v * w))) vs ws

unfoldable pub compute_check_digit : List ℕ → List ℕ → ℕ
compute_check_digit values weights =
    let remainder = weighted_fold 0 values weights % 11 in
    if ltb remainder 2 then 0 else try_u8 (11 - remainder)

-- `core::array::from_fn` from index `i`, for `n` items.
unfoldable pub from_fn : ℕ → ℕ → (ℕ → ℕ) → List ℕ
from_fn zero i f = []
from_fn (suc n) i f = f i ∷ from_fn n (i + 1) f

unfoldable pub compute_valid_check_digits : Bytes → ℕ × ℕ
unfolding from_fn
compute_valid_check_digits base =
    let base_values = map char_value base in
    let dv1 = compute_check_digit base_values weights_dv1 in
    let dv2_input = from_fn 13 0 (λ i. get_or base_values i dv1) in
    (dv1, compute_check_digit dv2_input weights_dv2)

abbrev zeros : Bytes
zeros = codes "000000000000"

-- `candidate.get(i).and_then(|&b| u8::try_from(char_value(b)).ok()).unwrap_or(0)`
unfoldable pub found_at : Bytes → ℕ → ℕ
unfolding char_value
found_at candidate i = elim (get_elem? candidate i) [ some b ↦ try_u8 (char_value b) | none ↦ 0 ]

unfoldable pub validate_check_digits : Bytes → Result (Unit {0}) CnpjError
validate_check_digits candidate =
    let base = if leb base_len (length candidate) then take base_len candidate else zeros in
    let (expected_dv1, expected_dv2) = compute_valid_check_digits base in
    let found_dv1 = found_at candidate 12 in
    let found_dv2 = found_at candidate 13 in
    if not (expected_dv1 == found_dv1)
    then err (invalid_check_digits 13 expected_dv1 found_dv1)
    else if not (expected_dv2 == found_dv2)
    then err (invalid_check_digits 14 expected_dv2 found_dv2)
    else ok tt

unfoldable pub validate_not_repeated : Bytes → Result (Unit {0}) CnpjError
validate_not_repeated candidate =
    if all (λ b. b == get_or candidate 0 0) candidate then err repeated_digits else ok tt

-- The class that the checking loop wants at an index.
unfoldable pub class_at : ℕ → CharacterClass
class_at i = if ltb i base_len then alphanumeric else digit

-- `u8::try_from(i).unwrap_or(0).saturating_add(1)`
abbrev position : ℕ → ℕ
position i = min 255 (try_u8 i + 1)

-- The body of the loop of `validate_character_classes`.
unfoldable pub fault : ℕ → ℕ → Option CnpjError
unfolding class_at
fault i byte =
    let is_valid =
      if ltb i base_len
      then is_ascii_digit byte || is_ascii_uppercase byte
      else is_ascii_digit byte in
    if not is_valid then some (invalid_character byte (position i) (class_at i)) else none

unfoldable pub validate_character_classes : Bytes → Result (Unit {0}) CnpjError
validate_character_classes candidate = check_each fault 0 candidate

unfoldable pub validate : Bytes → Result (Unit {0}) CnpjError
validate candidate = do
  validate_character_classes candidate
  validate_not_repeated candidate
  validate_check_digits candidate
  ok tt

unfoldable pub from_bytes : Bytes → Result Cnpj CnpjError
from_bytes bytes = do validate bytes; ok (record { bytes = bytes })

unfoldable pub is_formatting_char : ℕ → Bool
is_formatting_char c = (c == b'.' || c == b'/' || c == b'-') || is_whitespace c

-- `input.chars().filter(|&c| !is_formatting_char(c))`
unfoldable pub meaningful : Text → Text
meaningful [] = []
meaningful (c ∷ cs) =
    let rest = meaningful cs in if not (is_formatting_char c) then c ∷ rest else rest

-- The error of a character that is not ASCII.
unfoldable pub not_ascii : ℕ → ℕ → CnpjError
not_ascii ch i = invalid_character ch (position i) alphanumeric

unfoldable pub normalize : Text → Result Bytes CnpjError
normalize input =
    let found = length (meaningful input) in
    if is_empty input
    then err empty
    else if not (found == 14)
    then err (invalid_length found)
    else fill not_ascii 0 (meaningful input)

unfoldable pub parse : Text → Result Cnpj CnpjError
parse input = do candidate ← normalize input; from_bytes candidate

-- `TryFrom<&[u8]>`: a slice of any length.
unfoldable pub try_from_slice : Bytes → Result Cnpj CnpjError
try_from_slice value =
    if length value == 14 then from_bytes value else err (invalid_length (length value))

abbrev pub as_str : Cnpj → Text
as_str cnpj = cnpj.bytes

unfoldable pub root : Cnpj → Text
root cnpj = take 8 (as_str cnpj)

unfoldable pub branch_code : Cnpj → Text
branch_code cnpj = take 4 (drop 8 (as_str cnpj))

unfoldable pub is_root : Cnpj → Bool
unfolding branch_code
is_root cnpj = text_eq (branch_code cnpj) (codes "0001")

unfoldable pub check_digits : Cnpj → ℕ × ℕ
check_digits cnpj = (get_or cnpj.bytes 12 0 - b'0', get_or cnpj.bytes 13 0 - b'0')

-- `FormattedCnpj::new`: the layout of the eighteen characters.
unfoldable pub formatted : Cnpj → Text
formatted cnpj =
    let d = λ (i : ℕ). get_or cnpj.bytes i 0 in
    d 0
    ∷ d 1
    ∷ b'.'
    ∷ d 2
    ∷ d 3
    ∷ d 4
    ∷ b'.'
    ∷ d 5
    ∷ d 6
    ∷ d 7
    ∷ b'/'
    ∷ d 8
    ∷ d 9
    ∷ d 10
    ∷ d 11
    ∷ b'-'
    ∷ d 12
    ∷ d 13
    ∷ []
