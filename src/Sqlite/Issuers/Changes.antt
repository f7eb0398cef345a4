-- ===== src/Sqlite/Issuers/Changes.antt =====
-- What the UPDATE statements of crates/infrastructure/src/sqlite/repositories/issuer.rs make of a row,
-- said column by column.
use valqeron.Base.{◌+◌, ◌≡◌, refl, Option, none, some}
use valqeron.Domain.Issuer.Patch.{IssuerPatch}
use valqeron.Domain.Issuer.Types.{Issuer}
use valqeron.Domain.Labels.{IssuerStatus}
use valqeron.Domain.Labels.IssuerStatuses as Statuses
use valqeron.Sqlite.Columns.{map_option}
use valqeron.Sqlite.Issuers.Queries.{patched_row, updated_row}
use valqeron.Sqlite.Schema.{IssuerRecord}
use valqeron.Sqlite.Sql.{coalesce_value}
use valqeron.Sqlite.Table.Updates.{
  Patched, Replaced, coalesce-Patched, coalesce_same-Patched, map_option-Replaced, same-Replaced,
}
use valqeron.Text.{Text, codes}

-- The text of a status.
abbrev pub IsStatus : IssuerStatus → Text → Type 0
IsStatus Statuses.active after = after ≡ codes "ACTIVE"
IsStatus Statuses.retired after = after ≡ codes "RETIRED"

abbrev pub PatchedStatus : Option IssuerStatus → Text → Text → Type 0
PatchedStatus none before after = after ≡ before
PatchedStatus (some status) before after = IsStatus status after

-- Each column has what the patch sets, or else what it had, and the version is the next one.
pub record IsPatched (patch : IssuerPatch) (before after : IssuerRecord) : Type 0 where
  pub id : after.id ≡ before.id
  pub created_at : after.created_at ≡ before.created_at
  pub version : after.version ≡ before.version + 1
  pub name : Patched (λ n. n) patch.name before.name after.name
  pub status : PatchedStatus patch.status before.status after.status
  pub cnpj : Patched (λ c. c.bytes) patch.cnpj before.cnpj after.cnpj
  pub lei : Patched (λ l. l.bytes) patch.lei before.lei after.lei
  pub country_code :
      Patched (λ c. c.bytes) patch.country_code before.country_code after.country_code

-- Each column but the time of creation has what the issuer has, and the version is the next one.
pub record IsReplaced {Time : Type 0} (issuer : Issuer Time) (before after : IssuerRecord)
    : Type 0 where
  pub id : after.id ≡ before.id
  pub created_at : after.created_at ≡ before.created_at
  pub version : after.version ≡ before.version + 1
  pub name : Replaced (λ n. n) issuer.name after.name
  pub status : IsStatus issuer.status after.status
  pub cnpj : Replaced (λ c. c.bytes) issuer.cnpj after.cnpj
  pub lei : Replaced (λ l. l.bytes) issuer.lei after.lei
  pub country_code : Replaced (λ c. c.bytes) issuer.country_code after.country_code

text-IsStatus : (status : IssuerStatus) → IsStatus status (Statuses.text status)
text-IsStatus Statuses.active = refl
text-IsStatus Statuses.retired = refl

coalesce-PatchedStatus :
    (o : Option IssuerStatus) (column : Text)
    → PatchedStatus o column (coalesce_value (map_option Statuses.text o) column)
coalesce-PatchedStatus none column = refl
coalesce-PatchedStatus (some status) column = text-IsStatus status

pub patched_row-IsPatched :
    (patch : IssuerPatch) (row : IssuerRecord) → IsPatched patch row (patched_row patch row)
unfolding patched_row
patched_row-IsPatched patch row = record {
  id = refl;
  created_at = refl;
  version = refl;
  name = coalesce_same-Patched patch.name row.name;
  status = coalesce-PatchedStatus patch.status row.status;
  cnpj = coalesce-Patched (λ c. c.bytes) patch.cnpj row.cnpj;
  lei = coalesce-Patched (λ l. l.bytes) patch.lei row.lei;
  country_code = coalesce-Patched (λ c. c.bytes) patch.country_code row.country_code;
}

pub updated_row-IsReplaced :
    {Time : Type 0} (issuer : Issuer Time) (row : IssuerRecord)
    → IsReplaced issuer row (updated_row issuer row)
unfolding updated_row
updated_row-IsReplaced issuer row = record {
  id = refl;
  created_at = refl;
  version = refl;
  name = same-Replaced issuer.name;
  status = text-IsStatus issuer.status;
  cnpj = map_option-Replaced (λ c. c.bytes) issuer.cnpj;
  lei = map_option-Replaced (λ l. l.bytes) issuer.lei;
  country_code = map_option-Replaced (λ c. c.bytes) issuer.country_code;
}
