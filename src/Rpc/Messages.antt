-- ===== src/Rpc/Messages.antt =====
-- The messages of crates/engine-proto/proto/valqeron/v1/issuer.proto, and the texts of ids and times
-- in them. The text functions of the crates uuid and chrono and the upper case of Unicode are
-- parameters.
use valqeron.Base.{ℕ, ◌≡◌, Bool, true, all, Option, some}
use valqeron.Domain.Ids.{IssuerId}
use valqeron.Sqlite.Columns.{is_unchanged}
use valqeron.Text.{Text}

pub record IssuerProto : Type 0 where
  pub id : Text
  pub status : Text
  pub created_at : Text
  pub version : ℕ
  pub name : Option Text
  pub cnpj : Option Text
  pub lei : Option Text
  pub country_code : Option Text

pub record RegisterIssuerRequestProto : Type 0 where
  pub name : Option Text
  pub status : Option Text
  pub cnpj : Option Text
  pub lei : Option Text
  pub country_code : Option Text
  pub dry_run : Bool

pub record PatchIssuerRequestProto : Type 0 where
  pub id : Text
  pub expected_version : ℕ
  pub name : Option Text
  pub status : Option Text
  pub cnpj : Option Text
  pub lei : Option Text
  pub country_code : Option Text
  pub dry_run : Bool

pub data Outcome : Type 0 where
  applied : Outcome
  version_mismatch : (expected actual : ℕ) → Outcome
  missing : Outcome

pub record WriteOutcomeProto : Type 0 where
  pub outcome : Option Outcome

-- `Uuid::to_string`, `Uuid::parse_str`, `DateTime::to_rfc3339`, `DateTime::parse_from_rfc3339` with
-- the change to UTC, the cut of a time at milliseconds, and `str::to_uppercase`.
pub record Wire (Time : Type 0) : Type 0 where
  pub uuid_text : IssuerId → Text
  pub parse_uuid : Text → Option IssuerId
  pub to_rfc3339 : Time → Text
  pub parse_from_rfc3339 : Text → Option Time
  pub in_millis : Time → Time
  pub to_uppercase : Text → Text

-- What both sides rely on: an id and a time that are written are read again, and the upper case of
-- an ASCII text with no lower case letter is that text.
pub record IsDocumented {Time : Type 0} (wire : Wire Time) : Type 0 where
  pub read_uuid : (id : IssuerId) → wire.parse_uuid (wire.uuid_text id) ≡ some id
  pub read_time : (time : Time) → wire.parse_from_rfc3339 (wire.to_rfc3339 time) ≡ some time
  pub upper : (t : Text) → all is_unchanged t ≡ true → wire.to_uppercase t ≡ t
