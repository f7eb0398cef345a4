-- ===== src/Domain/Labels/ListingStatuses.antt =====
-- `ListingStatus` of crates/core/src/domain/listing.rs.
use valqeron.Base.{◌≡◌, ◌↔◌, Bool, true, false, if◌then◌else◌, arith, Result, ok, err}
use valqeron.Text.{Text, codes, text_eq, text_eq_iff}

pub data ListingStatus : Type 0 where
  active suspended delisted : ListingStatus

pub data ListingStatusError : Type 0 where
  invalid_status : ListingStatusError

-- `ListingStatus::default`
abbrev pub default : ListingStatus
default = active

abbrev pub is_active : ListingStatus → Bool
is_active active = true
is_active suspended = false
is_active delisted = false

abbrev pub is_suspended : ListingStatus → Bool
is_suspended active = false
is_suspended suspended = true
is_suspended delisted = false

abbrev pub is_delisted : ListingStatus → Bool
is_delisted active = false
is_delisted suspended = false
is_delisted delisted = true

-- `String::from`
abbrev pub text : ListingStatus → Text
text active = codes "ACTIVE"
text suspended = codes "SUSPENDED"
text delisted = codes "DELISTED"

-- `str::to_uppercase` follows the tables of Unicode, so it is a parameter.
module _ (to_uppercase : Text → Text) where
  unfoldable pub from_str : Text → Result ListingStatus ListingStatusError
  from_str s =
      let upper = to_uppercase s in
      if text_eq upper (codes "ACTIVE")
      then ok active
      else if text_eq upper (codes "SUSPENDED")
      then ok suspended
      else if text_eq upper (codes "DELISTED")
      then ok delisted
      else err invalid_status

  -- A text is read as a value exactly if its upper case is the text of that value.
  pub listing_status-from_str_iff :
      (s : Text) (value : ListingStatus) → (from_str s ≡ ok value) ↔ (to_uppercase s ≡ text value)
  unfolding from_str text_eq
  listing_status-from_str_iff s active =
      ground (arith, text_eq_iff (to_uppercase s) (codes "ACTIVE"))
  listing_status-from_str_iff s suspended = ground (
    arith,
    text_eq_iff (to_uppercase s) (codes "ACTIVE"),
    text_eq_iff (to_uppercase s) (codes "SUSPENDED"),
  )
  listing_status-from_str_iff s delisted = ground (
    arith,
    text_eq_iff (to_uppercase s) (codes "ACTIVE"),
    text_eq_iff (to_uppercase s) (codes "SUSPENDED"),
    text_eq_iff (to_uppercase s) (codes "DELISTED"),
  )
