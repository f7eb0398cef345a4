-- ===== src/Identifiers/CountryCode/Defs.antt =====
-- The code of country_code.rs, in the order of its calls from the bottom up.
use Prim.Native.Nat.{bit_and, bit_or}
use valqeron.Base.{
  ℕ, ◌+◌, ◌*◌, ◌/◌, ◌%◌, ◌^◌, Bool, true, not, ◌&&◌, ◌||◌, List, [], ◌∷◌, Option, none, some, ltb,
  leb, ◌==◌, if◌then◌else◌, u8, sub8, length, get_or, set, replicate, all, Result, ok, err, ◌>>=◌,
  ◌>>◌,
}
use valqeron.Text.{Text, Bytes, codes, is_ascii, is_ascii_uppercase}
use valqeron.Identifiers.CountryCode.Table.{assigned_codes}
use valqeron.Identifiers.Fixed.{check_each}
use valqeron.Identifiers.Fixed

pub record CountryCode : Type 0 where
  pub bytes : Bytes

pub data CountryCodeError : Type 0 where
  empty : CountryCodeError
  invalid_length : ℕ → CountryCodeError
  invalid_character : ℕ → ℕ → CountryCodeError
  unassigned : Text → CountryCodeError
  from_utf8_error : CountryCodeError

abbrev pub words : ℕ
words = 11

-- `(code[0] - b'A') as usize * 26 + (code[1] - b'A') as usize`
unfoldable pub bit_index : Bytes → ℕ
bit_index code = sub8 (get_or code 0 0) b'A' * 26 + sub8 (get_or code 1 0) b'A'

-- The loop of `build_bitmap`; `1u64 << k` is `2 ^ k` for a `k` below 64.
unfoldable pub build_bitmap_loop : List ℕ → List Bytes → List ℕ
unfolding bit_index
build_bitmap_loop bits [] = bits
build_bitmap_loop bits (code ∷ codes) =
    let index = bit_index code in
    let word = index / 64 in
    build_bitmap_loop (set bits word (bit_or (get_or bits word 0) (2 ^ (index % 64)))) codes

unfoldable pub build_bitmap : List Bytes → List ℕ
unfolding build_bitmap_loop
build_bitmap codes = build_bitmap_loop (replicate words 0) codes

unfoldable pub assigned : List ℕ
assigned = build_bitmap assigned_codes

-- `(bits[index / 64] >> (index % 64)) & 1 == 1`
unfoldable pub has_bit : List ℕ → ℕ → Bool
has_bit bits index = bit_and (get_or bits (index / 64) 0 / 2 ^ (index % 64)) 1 == 1

unfoldable pub is_assigned : Bytes → Bool
is_assigned candidate = has_bit assigned (bit_index candidate)

-- The compile-time check of the table: upper case letters, in strictly ascending order. The first
-- argument is the code before, if any; `false` is a failed assertion.
unfoldable pub check_table_loop : Option Bytes → List Bytes → Bool
check_table_loop prev [] = true
check_table_loop none (code ∷ codes) =
    let a = get_or code 0 0 in
    let b = get_or code 1 0 in
    leb b'A' a && leb a b'Z' && leb b'A' b && leb b b'Z' && check_table_loop (some code) codes
check_table_loop (some prev) (code ∷ codes) =
    let a = get_or code 0 0 in
    let b = get_or code 1 0 in
    let prev_a = get_or prev 0 0 in
    let prev_b = get_or prev 1 0 in
    leb b'A' a
    && leb a b'Z'
    && leb b'A' b
    && leb b b'Z'
    && (ltb prev_a a || (prev_a == a && ltb prev_b b))
    && check_table_loop (some code) codes

unfoldable pub check_table : List Bytes → Bool
unfolding check_table_loop
check_table = check_table_loop none

-- `String::from_utf8`, as far as it is called here: on bytes below 128, which are their own
-- characters. A byte from 128 on is not reached, since the letters are checked first.
unfoldable pub from_utf8 : Bytes → Option Text
from_utf8 bytes = if all is_ascii bytes then some bytes else none

unfoldable pub validate_membership : Bytes → Result (Unit {0}) CountryCodeError
unfolding from_utf8
validate_membership candidate =
    if is_assigned candidate then ok tt else elim (from_utf8 candidate) [
      | some code ↦ err (unassigned code)
      | none ↦ err from_utf8_error
    ]

-- The body of the loop of `validate_character_classes`.
unfoldable pub fault : ℕ → ℕ → Option CountryCodeError
fault i byte =
    if not (is_ascii_uppercase byte) then some (invalid_character byte (u8 (i + 1))) else none

unfoldable pub validate_character_classes : Bytes → Result (Unit {0}) CountryCodeError
validate_character_classes candidate = check_each fault 0 candidate

unfoldable pub validate : Bytes → Result (Unit {0}) CountryCodeError
validate candidate = do validate_character_classes candidate; validate_membership candidate; ok tt

unfoldable pub from_bytes : Bytes → Result CountryCode CountryCodeError
from_bytes bytes = do validate bytes; ok (record { bytes = bytes })

-- The error of a character that is not ASCII.
unfoldable pub not_ascii : ℕ → ℕ → CountryCodeError
not_ascii ch i = invalid_character ch (u8 (i + 1))

unfoldable pub normalize : Text → Result Bytes CountryCodeError
normalize = Fixed.normalize 2 empty invalid_length not_ascii

unfoldable pub parse : Text → Result CountryCode CountryCodeError
parse input = do candidate ← normalize input; from_bytes candidate

-- `TryFrom<&[u8]>`: a slice of any length.
unfoldable pub try_from_slice : Bytes → Result CountryCode CountryCodeError
try_from_slice value =
    if length value == 2 then from_bytes value else err (invalid_length (length value))

abbrev pub as_str : CountryCode → Text
as_str code = code.bytes
