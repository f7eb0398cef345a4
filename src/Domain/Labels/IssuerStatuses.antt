-- ===== src/Domain/Labels/IssuerStatuses.antt =====
-- `IssuerStatus` of crates/core/src/domain/issuer.rs.
use valqeron.Base.{◌≡◌, ◌↔◌, Bool, true, false, if◌then◌else◌, arith, Result, ok, err}
use valqeron.Text.{Text, codes, text_eq, text_eq_iff}

pub data IssuerStatus : Type 0 where
  active retired : IssuerStatus

pub data IssuerStatusError : Type 0 where
  invalid_status : IssuerStatusError

-- `IssuerStatus::default`
abbrev pub default : IssuerStatus
default = active

abbrev pub is_active : IssuerStatus → Bool
is_active active = true
is_active retired = false

abbrev pub is_retired : IssuerStatus → Bool
is_retired active = false
is_retired retired = true

-- `String::from`
abbrev pub text : IssuerStatus → Text
text active = codes "ACTIVE"
text retired = codes "RETIRED"

-- `str::to_uppercase` follows the tables of Unicode, so it is a parameter.
module _ (to_uppercase : Text → Text) where
  unfoldable pub from_str : Text → Result IssuerStatus IssuerStatusError
  from_str s =
      let upper = to_uppercase s in
      if text_eq upper (codes "ACTIVE")
      then ok active
      else if text_eq upper (codes "RETIRED")
      then ok retired
      else err invalid_status

  -- A text is read as a value exactly if its upper case is the text of that value.
  pub issuer_status-from_str_iff :
      (s : Text) (value : IssuerStatus) → (from_str s ≡ ok value) ↔ (to_uppercase s ≡ text value)
  unfolding from_str text_eq
  issuer_status-from_str_iff s active =
      ground (arith, text_eq_iff (to_uppercase s) (codes "ACTIVE"))
  issuer_status-from_str_iff s retired = ground (
    arith,
    text_eq_iff (to_uppercase s) (codes "ACTIVE"),
    text_eq_iff (to_uppercase s) (codes "RETIRED"),
  )
