-- ===== src/Identifiers/Cfi/Defs.antt =====
-- The code of cfi.rs, in the order of its calls from the bottom up.
use valqeron.Base.{
  ℕ, ◌+◌, ◌/◌, ◌%◌, ◌^◌, Bool, not, List, [], ◌∷◌, Option, none, some, ◌==◌, if◌then◌else◌, u8,
  sub8, drop, get_or, length, Result, ok, err, ◌>>=◌, ◌>>◌,
}
use valqeron.Text.{Text, Bytes, is_ascii_uppercase}
use valqeron.Identifiers.Fixed.{check_each}
use valqeron.Identifiers.Fixed

pub record Cfi : Type 0 where
  pub bytes : Bytes

pub record CfiGroupEntry : Type 0 where
  pub code : ℕ
  pub attrs : List ℕ

pub record CfiCategoryEntry : Type 0 where
  pub code : ℕ
  pub groups : List CfiGroupEntry

pub data CfiError : Type 0 where
  empty : CfiError
  invalid_length : ℕ → CfiError
  invalid_character : ℕ → ℕ → CfiError
  unknown_category : ℕ → CfiError
  unknown_group : ℕ → ℕ → CfiError
  invalid_attribute : ℕ → ℕ → ℕ → ℕ → CfiError

abbrev pub as_str : Cfi → Text
as_str cfi = cfi.bytes

abbrev pub category : Cfi → ℕ
category cfi = get_or cfi.bytes 0 0

abbrev pub group : Cfi → ℕ
group cfi = get_or cfi.bytes 1 0

abbrev pub attributes : Cfi → List ℕ
attributes cfi =
    get_or cfi.bytes 2 0 ∷ get_or cfi.bytes 3 0 ∷ get_or cfi.bytes 4 0 ∷ get_or cfi.bytes 5 0 ∷ []

-- `binary_search_by_key` on a slice that is sorted by its keys, which are distinct.
abbrev pub search_by_key : {A : Type 0} → (A → ℕ) → ℕ → List A → Option A
search_by_key key k [] = none
search_by_key key k (x ∷ xs) =
    let rest = search_by_key key k xs in if key x == k then some x else rest

unfoldable pub find_category : List CfiCategoryEntry → ℕ → Option CfiCategoryEntry
find_category categories code = search_by_key (λ c. c.code) code categories

unfoldable pub find_group : CfiCategoryEntry → ℕ → Option CfiGroupEntry
find_group category code = search_by_key (λ g. g.code) code category.groups

-- `(mask >> (code - b'A')) & 1 == 1`
unfoldable pub attr_allows : ℕ → ℕ → Bool
attr_allows mask code = (mask / 2 ^ sub8 code b'A') % 2 == 1

-- The loop over the attributes, from index `i`.
unfoldable pub check_attributes : ℕ → ℕ → List ℕ → ℕ → Bytes → Result (Unit {0}) CfiError
check_attributes category_code group_code attrs i [] = ok tt
check_attributes category_code group_code attrs i (code ∷ rest) =
    let next = check_attributes category_code group_code attrs (i + 1) rest in
    if not (attr_allows (get_or attrs i 0) code)
    then err (invalid_attribute category_code group_code (u8 (i + 1)) code)
    else next

abbrev pub ok_or : {A : Type 0} → Option A → CfiError → Result A CfiError
ok_or (some a) e = ok a
ok_or none e = err e

-- The body of the loop of `validate_character_classes`.
unfoldable pub fault : ℕ → ℕ → Option CfiError
fault i byte =
    if not (is_ascii_uppercase byte) then some (invalid_character byte (u8 (i + 1))) else none

unfoldable pub validate_character_classes : Bytes → Result (Unit {0}) CfiError
validate_character_classes candidate = check_each fault 0 candidate

-- The error of a character that is not ASCII.
unfoldable pub not_ascii : ℕ → ℕ → CfiError
not_ascii ch i = invalid_character ch (u8 (i + 1))

unfoldable pub normalize : Text → Result Bytes CfiError
normalize = Fixed.normalize 6 empty invalid_length not_ascii

module _ (categories : List CfiCategoryEntry) where
  unfoldable pub validate_taxonomy : Bytes → Result (Unit {0}) CfiError
  validate_taxonomy candidate = do
    let category_code = get_or candidate 0 0
    let group_code = get_or candidate 1 0
    category ← ok_or (find_category categories category_code) (unknown_category category_code)
    group ← ok_or (find_group category group_code) (unknown_group category_code group_code)
    check_attributes category_code group_code group.attrs 0 (drop 2 candidate)

  unfoldable pub validate : Bytes → Result (Unit {0}) CfiError
  validate candidate = do validate_character_classes candidate; validate_taxonomy candidate; ok tt

  unfoldable pub from_bytes : Bytes → Result Cfi CfiError
  from_bytes bytes = do validate bytes; ok (record { bytes = bytes })

  unfoldable pub parse : Text → Result Cfi CfiError
  parse input = do candidate ← normalize input; from_bytes candidate

  -- `TryFrom<&[u8]>`: a slice of any length.
  unfoldable pub try_from_slice : Bytes → Result Cfi CfiError
  try_from_slice value =
      if length value == 6 then from_bytes value else err (invalid_length (length value))
