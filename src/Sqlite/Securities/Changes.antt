-- ===== src/Sqlite/Securities/Changes.antt =====
-- What the UPDATE statements of crates/infrastructure/src/sqlite/repositories/securities.rs make of a row,
-- said column by column.
use valqeron.Base.{◌+◌, ◌≡◌, refl, Option, none, some}
use valqeron.Domain.Security.Patch.{SecurityPatch}
use valqeron.Domain.Security.Types.{Security}
use valqeron.Domain.Labels.{SecurityStatus}
use valqeron.Domain.Labels.SecurityStatuses as Statuses
use valqeron.Sqlite.Columns.{map_option}
use valqeron.Sqlite.Securities.Queries.{patched_row, updated_row}
use valqeron.Sqlite.Schema.{SecurityRecord}
use valqeron.Sqlite.Sql.{coalesce_value}
use valqeron.Sqlite.Table.Updates.{
  Patched, Replaced, coalesce-Patched, coalesce_same-Patched, map_option-Replaced, same-Replaced,
}
use valqeron.Text.{Text, codes}

-- The text of a status.
abbrev pub IsStatus : SecurityStatus → Text → Type 0
IsStatus Statuses.active after = after ≡ codes "ACTIVE"
IsStatus Statuses.retired after = after ≡ codes "RETIRED"

abbrev pub PatchedStatus : Option SecurityStatus → Text → Text → Type 0
PatchedStatus none before after = after ≡ before
PatchedStatus (some status) before after = IsStatus status after

-- Each column has what the patch sets, or else what it had, and the version is the next one.
pub record IsPatched (patch : SecurityPatch) (before after : SecurityRecord) : Type 0 where
  pub id : after.id ≡ before.id
  pub issuer_id : after.issuer_id ≡ before.issuer_id
  pub kind : after.kind ≡ before.kind
  pub underlying_security_id : after.underlying_security_id ≡ before.underlying_security_id
  pub created_at : after.created_at ≡ before.created_at
  pub version : after.version ≡ before.version + 1
  pub name : Patched (λ n. n) patch.name before.name after.name
  pub status : PatchedStatus patch.status before.status after.status
  pub isin : Patched (λ i. i.bytes) patch.isin before.isin after.isin
  pub cfi : Patched (λ c. c.bytes) patch.cfi before.cfi after.cfi
  pub receipts :
      Patched (λ r. r.receipts) patch.dr_ratio before.dr_ratio_receipts after.dr_ratio_receipts
  pub underlying :
      Patched
        (λ r. r.underlying)
        patch.dr_ratio
        before.dr_ratio_underlying
        after.dr_ratio_underlying

-- Each column has what the security has, but for the issuer, the kind, the underlying security and
-- the time of creation, which stay, and the version is the next one.
pub record IsReplaced {Time : Type 0} (security : Security Time) (before after : SecurityRecord)
    : Type 0 where
  pub id : after.id ≡ before.id
  pub issuer_id : after.issuer_id ≡ before.issuer_id
  pub kind : after.kind ≡ before.kind
  pub underlying_security_id : after.underlying_security_id ≡ before.underlying_security_id
  pub created_at : after.created_at ≡ before.created_at
  pub version : after.version ≡ before.version + 1
  pub name : Replaced (λ n. n) security.name after.name
  pub status : IsStatus security.status after.status
  pub isin : Replaced (λ i. i.bytes) security.isin after.isin
  pub cfi : Replaced (λ c. c.bytes) security.cfi after.cfi
  pub receipts : Replaced (λ r. r.receipts) security.dr_ratio after.dr_ratio_receipts
  pub underlying : Replaced (λ r. r.underlying) security.dr_ratio after.dr_ratio_underlying

text-IsStatus : (status : SecurityStatus) → IsStatus status (Statuses.text status)
text-IsStatus Statuses.active = refl
text-IsStatus Statuses.retired = refl

coalesce-PatchedStatus :
    (o : Option SecurityStatus) (column : Text)
    → PatchedStatus o column (coalesce_value (map_option Statuses.text o) column)
coalesce-PatchedStatus none column = refl
coalesce-PatchedStatus (some status) column = text-IsStatus status

pub patched_row-IsPatched :
    (patch : SecurityPatch) (row : SecurityRecord) → IsPatched patch row (patched_row patch row)
unfolding patched_row
patched_row-IsPatched patch row = record {
  id = refl;
  issuer_id = refl;
  kind = refl;
  underlying_security_id = refl;
  created_at = refl;
  version = refl;
  name = coalesce_same-Patched patch.name row.name;
  status = coalesce-PatchedStatus patch.status row.status;
  isin = coalesce-Patched (λ i. i.bytes) patch.isin row.isin;
  cfi = coalesce-Patched (λ c. c.bytes) patch.cfi row.cfi;
  receipts = coalesce-Patched (λ r. r.receipts) patch.dr_ratio row.dr_ratio_receipts;
  underlying = coalesce-Patched (λ r. r.underlying) patch.dr_ratio row.dr_ratio_underlying;
}

pub updated_row-IsReplaced :
    {Time : Type 0} (security : Security Time) (row : SecurityRecord)
    → IsReplaced security row (updated_row security row)
unfolding updated_row
updated_row-IsReplaced security row = record {
  id = refl;
  issuer_id = refl;
  kind = refl;
  underlying_security_id = refl;
  created_at = refl;
  version = refl;
  name = same-Replaced security.name;
  status = text-IsStatus security.status;
  isin = map_option-Replaced (λ i. i.bytes) security.isin;
  cfi = map_option-Replaced (λ c. c.bytes) security.cfi;
  receipts = map_option-Replaced (λ r. r.receipts) security.dr_ratio;
  underlying = map_option-Replaced (λ r. r.underlying) security.dr_ratio;
}
