-- ===== src/Domain/Labels/ListingRoles.antt =====
-- `ListingRole` of crates/core/src/domain/listing.rs.
use valqeron.Base.{◌≡◌, ◌↔◌, Bool, true, false, if◌then◌else◌, arith, Result, ok, err}
use valqeron.Text.{Text, codes, text_eq, text_eq_iff}

pub data ListingRole : Type 0 where
  primary secondary : ListingRole

pub data ListingRoleError : Type 0 where
  invalid_role : ListingRoleError

-- `ListingRole::default`
abbrev pub default : ListingRole
default = primary

abbrev pub is_primary : ListingRole → Bool
is_primary primary = true
is_primary secondary = false

abbrev pub is_secondary : ListingRole → Bool
is_secondary primary = false
is_secondary secondary = true

-- `String::from`
abbrev pub text : ListingRole → Text
text primary = codes "PRIMARY"
text secondary = codes "SECONDARY"

-- `str::to_uppercase` follows the tables of Unicode, so it is a parameter.
module _ (to_uppercase : Text → Text) where
  unfoldable pub from_str : Text → Result ListingRole ListingRoleError
  from_str s =
      let upper = to_uppercase s in
      if text_eq upper (codes "PRIMARY")
      then ok primary
      else if text_eq upper (codes "SECONDARY")
      then ok secondary
      else err invalid_role

  -- A text is read as a value exactly if its upper case is the text of that value.
  pub listing_role-from_str_iff :
      (s : Text) (value : ListingRole) → (from_str s ≡ ok value) ↔ (to_uppercase s ≡ text value)
  unfolding from_str text_eq
  listing_role-from_str_iff s primary =
      ground (arith, text_eq_iff (to_uppercase s) (codes "PRIMARY"))
  listing_role-from_str_iff s secondary = ground (
    arith,
    text_eq_iff (to_uppercase s) (codes "PRIMARY"),
    text_eq_iff (to_uppercase s) (codes "SECONDARY"),
  )
