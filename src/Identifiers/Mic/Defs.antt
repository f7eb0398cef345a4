-- ===== src/Identifiers/Mic/Defs.antt =====
-- The code of mic.rs, in the order of its calls from the bottom up.
use valqeron.Base.{
  ℕ, ◌+◌, Bool, not, ◌&&◌, List, [], ◌∷◌, Option, none, some, ◌==◌, if◌then◌else◌, u8, length, all,
  get_elem?, Result, ok, err, ◌>>=◌, ◌>>◌,
}
use valqeron.Text.{Text, Bytes, is_ascii, is_ascii_uppercase, is_ascii_digit, text_eq}
use valqeron.Identifiers.CountryCode as Countries
use valqeron.Identifiers.CountryCode.{CountryCode}
use valqeron.Identifiers.Fixed.{check_each}
use valqeron.Identifiers.Fixed

pub record MicEntry : Type 0 where
  pub code : Bytes
  pub operating : ℕ
  pub country : Bytes
  pub active : Bool

pub record Mic : Type 0 where
  pub bytes : Bytes

pub data MicError : Type 0 where
  empty : MicError
  invalid_length : ℕ → MicError
  invalid_character : ℕ → ℕ → MicError
  unregistered : Text → MicError
  invalid_utf8 : MicError

abbrev pub as_str : Mic → Text
as_str mic = mic.bytes

-- `binary_search_by_key` on a table that is sorted by its codes, which are distinct.
unfoldable pub find : List MicEntry → Bytes → Option MicEntry
find [] candidate = none
find (entry ∷ entries) candidate =
    let rest = find entries candidate in if text_eq entry.code candidate then some entry else rest

-- `String::from_utf8`, as far as it is called here: on bytes below 128.
unfoldable pub from_utf8 : Bytes → Option Text
from_utf8 bytes = if all is_ascii bytes then some bytes else none

-- The body of the loop of `validate_character_classes`.
unfoldable pub fault : ℕ → ℕ → Option MicError
fault i byte =
    if not (is_ascii_uppercase byte) && not (is_ascii_digit byte)
    then some (invalid_character byte (u8 (i + 1)))
    else none

unfoldable pub validate_character_classes : Bytes → Result (Unit {0}) MicError
validate_character_classes candidate = check_each fault 0 candidate

-- The error of a character that is not ASCII.
unfoldable pub not_ascii : ℕ → ℕ → MicError
not_ascii ch i = invalid_character ch (u8 (i + 1))

unfoldable pub normalize : Text → Result Bytes MicError
normalize = Fixed.normalize 4 empty invalid_length not_ascii

-- Whether an entry was found, with the text of the code for the error.
abbrev pub membership : Option MicEntry → Option Text → Result (Unit {0}) MicError
membership (some entry) code = ok tt
membership none (some code) = err (unregistered code)
membership none none = err invalid_utf8

module _ (entries : List MicEntry) where
  unfoldable pub validate_membership : Bytes → Result (Unit {0}) MicError
  validate_membership candidate = membership (find entries candidate) (from_utf8 candidate)

  unfoldable pub validate : Bytes → Result (Unit {0}) MicError
  validate candidate = do validate_character_classes candidate; validate_membership candidate; ok tt

  unfoldable pub from_bytes : Bytes → Result Mic MicError
  from_bytes bytes = do validate bytes; ok (record { bytes = bytes })

  unfoldable pub parse : Text → Result Mic MicError
  parse input = do candidate ← normalize input; from_bytes candidate

  -- `TryFrom<&[u8]>`: a slice of any length.
  unfoldable pub try_from_slice : Bytes → Result Mic MicError
  try_from_slice value =
      if length value == 4 then from_bytes value else err (invalid_length (length value))

  -- `expect` on a value that is not there ends the program, which is `none` here and below.
  unfoldable pub entry : Mic → Option MicEntry
  entry mic = find entries mic.bytes

  abbrev pub active_of : Option MicEntry → Option Bool
  active_of none = none
  active_of (some e) = some e.active

  unfoldable pub is_active : Mic → Option Bool
  is_active mic = active_of (entry mic)

  abbrev pub mic_of : Option MicEntry → Option Mic
  mic_of none = none
  mic_of (some e) = some (record { bytes = e.code })

  abbrev pub operating_of : Option MicEntry → Option Mic
  operating_of none = none
  operating_of (some e) = mic_of (get_elem? entries e.operating)

  unfoldable pub operating_mic : Mic → Option Mic
  operating_mic mic = operating_of (entry mic)

  abbrev pub same_as : Mic → Option Mic → Option Bool
  same_as mic none = none
  same_as mic (some other) = some (text_eq other.bytes mic.bytes)

  unfoldable pub is_operating : Mic → Option Bool
  is_operating mic = same_as mic (operating_mic mic)

  abbrev pub negated : Option Bool → Option Bool
  negated none = none
  negated (some b) = some (not b)

  unfoldable pub is_segment : Mic → Option Bool
  is_segment mic = negated (is_operating mic)

  -- `CountryCode::from_bytes(…).ok()`
  abbrev pub country_of : Option MicEntry → Option (Option CountryCode)
  country_of none = none
  country_of (some e) =
      some (elim (Countries.from_bytes e.country) [ ok code ↦ some code | err fault ↦ none ])

  unfoldable pub country_code : Mic → Option (Option CountryCode)
  country_code mic = country_of (entry mic)
