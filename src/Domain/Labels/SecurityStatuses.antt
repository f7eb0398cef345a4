-- ===== src/Domain/Labels/SecurityStatuses.antt =====
-- `SecurityStatus` of crates/core/src/domain/security.rs.
use valqeron.Base.{◌≡◌, ◌↔◌, Bool, true, false, if◌then◌else◌, arith, Result, ok, err}
use valqeron.Text.{Text, codes, text_eq, text_eq_iff}

pub data SecurityStatus : Type 0 where
  active retired : SecurityStatus

pub data SecurityStatusError : Type 0 where
  invalid_status : SecurityStatusError

-- `SecurityStatus::default`
abbrev pub default : SecurityStatus
default = active

abbrev pub is_active : SecurityStatus → Bool
is_active active = true
is_active retired = false

abbrev pub is_retired : SecurityStatus → Bool
is_retired active = false
is_retired retired = true

-- `String::from`
abbrev pub text : SecurityStatus → Text
text active = codes "ACTIVE"
text retired = codes "RETIRED"

-- `str::to_uppercase` follows the tables of Unicode, so it is a parameter.
module _ (to_uppercase : Text → Text) where
  unfoldable pub from_str : Text → Result SecurityStatus SecurityStatusError
  from_str s =
      let upper = to_uppercase s in
      if text_eq upper (codes "ACTIVE")
      then ok active
      else if text_eq upper (codes "RETIRED")
      then ok retired
      else err invalid_status

  -- A text is read as a value exactly if its upper case is the text of that value.
  pub security_status-from_str_iff :
      (s : Text) (value : SecurityStatus) → (from_str s ≡ ok value) ↔ (to_uppercase s ≡ text value)
  unfolding from_str text_eq
  security_status-from_str_iff s active =
      ground (arith, text_eq_iff (to_uppercase s) (codes "ACTIVE"))
  security_status-from_str_iff s retired = ground (
    arith,
    text_eq_iff (to_uppercase s) (codes "ACTIVE"),
    text_eq_iff (to_uppercase s) (codes "RETIRED"),
  )
