-- ===== src/Domain/Labels/SecurityKinds.antt =====
-- `SecurityKind` of crates/core/src/domain/security.rs.
use valqeron.Base.{◌≡◌, ◌↔◌, Bool, true, false, if◌then◌else◌, arith, Result, ok, err}
use valqeron.Text.{Text, codes, text_eq, text_eq_iff}

pub data SecurityKind : Type 0 where
  common_share preferred_share unit depositary_receipt : SecurityKind

pub data SecurityKindError : Type 0 where
  invalid_kind : SecurityKindError

abbrev pub is_depositary_receipt : SecurityKind → Bool
is_depositary_receipt common_share = false
is_depositary_receipt preferred_share = false
is_depositary_receipt unit = false
is_depositary_receipt depositary_receipt = true

-- `String::from`
abbrev pub text : SecurityKind → Text
text common_share = codes "COMMON_SHARE"
text preferred_share = codes "PREFERRED_SHARE"
text unit = codes "UNIT"
text depositary_receipt = codes "DEPOSITARY_RECEIPT"

-- `str::to_uppercase` follows the tables of Unicode, so it is a parameter.
module _ (to_uppercase : Text → Text) where
  unfoldable pub from_str : Text → Result SecurityKind SecurityKindError
  from_str s =
      let upper = to_uppercase s in
      if text_eq upper (codes "COMMON_SHARE")
      then ok common_share
      else if text_eq upper (codes "PREFERRED_SHARE")
      then ok preferred_share
      else if text_eq upper (codes "UNIT")
      then ok unit
      else if text_eq upper (codes "DEPOSITARY_RECEIPT")
      then ok depositary_receipt
      else err invalid_kind

  -- A text is read as a value exactly if its upper case is the text of that value.
  pub security_kind-from_str_iff :
      (s : Text) (value : SecurityKind) → (from_str s ≡ ok value) ↔ (to_uppercase s ≡ text value)
  unfolding from_str text_eq
  security_kind-from_str_iff s common_share =
      ground (arith, text_eq_iff (to_uppercase s) (codes "COMMON_SHARE"))
  security_kind-from_str_iff s preferred_share = ground (
    arith,
    text_eq_iff (to_uppercase s) (codes "COMMON_SHARE"),
    text_eq_iff (to_uppercase s) (codes "PREFERRED_SHARE"),
  )
  security_kind-from_str_iff s unit = ground (
    arith,
    text_eq_iff (to_uppercase s) (codes "COMMON_SHARE"),
    text_eq_iff (to_uppercase s) (codes "PREFERRED_SHARE"),
    text_eq_iff (to_uppercase s) (codes "UNIT"),
  )
  security_kind-from_str_iff s depositary_receipt = ground (
    arith,
    text_eq_iff (to_uppercase s) (codes "COMMON_SHARE"),
    text_eq_iff (to_uppercase s) (codes "PREFERRED_SHARE"),
    text_eq_iff (to_uppercase s) (codes "UNIT"),
    text_eq_iff (to_uppercase s) (codes "DEPOSITARY_RECEIPT"),
  )
