-- ===== src/Sqlite/Securities/RoundTrip.antt =====
-- The row that a security is written to is read as the same security.
use valqeron.Base.{
  ℕ, ◌≤◌, ◌<◌, ◌≡◌, refl, sym, ap, ◌∙◌, arith, Option, none, some, ok, true, all, u32_max,
}
use valqeron.Domain.Labels.{SecurityKind, SecurityStatus}
use valqeron.Domain.Labels.SecurityKinds as Kinds
use valqeron.Domain.Labels.SecurityKinds.{security_kind-from_str_iff}
use valqeron.Domain.Labels.SecurityStatuses as Statuses
use valqeron.Domain.Labels.SecurityStatuses.{security_status-from_str_iff}
use valqeron.Domain.Names.{security_name, checked_name_idem}
use valqeron.Domain.Ratio.{DepositaryReceiptRatio, dr_ratio}
use valqeron.Domain.Security.Types.{Security, reconstitute}
use valqeron.Identifiers.Cfi as Cfis
use valqeron.Identifiers.Cfi.Format.{cfi-parse-as_str}
use valqeron.Identifiers.Isin as Isins
use valqeron.Identifiers.Isin.Format.{isin-parse-as_str}
use valqeron.Sqlite.Columns.{
  Library, IsDocumented, IsMade, is_unchanged, convert-made, column_datetime-canonical_timestamp,
  map_option, transpose, convert,
}
use valqeron.Sqlite.Issuers.RoundTrip.{column_u32-fits, map_option-same}
use valqeron.Sqlite.Securities.Rows.{
  column_kind, column_status, column_opt_name, column_opt_isin, column_opt_cfi, column_opt_dr_ratio,
  from_row, inserted_row, column,
}
use valqeron.Sqlite.Sql.{text_type}
use valqeron.Text.{Text, codes}

-- Two numbers that are not zero and fit a `u32`.
abbrev pub IsRatio : Option DepositaryReceiptRatio → Type 0
IsRatio none = Unit
IsRatio (some r) =
    (0 < r.receipts) × (r.receipts ≤ u32_max) × (0 < r.underlying) × (r.underlying ≤ u32_max)

kind-unchanged : (kind : SecurityKind) → all is_unchanged (Kinds.text kind) ≡ true
kind-unchanged Kinds.common_share = refl
kind-unchanged Kinds.preferred_share = refl
kind-unchanged Kinds.unit = refl
kind-unchanged Kinds.depositary_receipt = refl

status-unchanged : (status : SecurityStatus) → all is_unchanged (Statuses.text status) ≡ true
status-unchanged Statuses.active = refl
status-unchanged Statuses.retired = refl

ratio-round_trip :
    (o : Option DepositaryReceiptRatio)
    → IsRatio o
    → column_opt_dr_ratio (map_option (λ r. r.receipts) o) (map_option (λ r. r.underlying) o) ≡ ok o
unfolding column_opt_dr_ratio dr_ratio
ratio-round_trip none h = refl
ratio-round_trip (some r) h =
    rw
      (
        column_u32-fits (column (codes "dr_ratio_receipts")) r.receipts h.1,
        column_u32-fits (column (codes "dr_ratio_underlying")) r.underlying h.3,
      )
      (ground arith)

module _ {Time : Type 0} (lib : Library Time) (in_millis : Time → Time) where
  -- The fields of a security come from the constructors of their types.
  pub record IsSound (security : Security Time) : Type 0 where
    pub name : IsMade security_name security.name
    pub isin : IsMade Isins.parse security.isin
    pub cfi : IsMade (Cfis.parse lib.cfi_categories) security.cfi
    pub dr_ratio : IsRatio security.dr_ratio

  kind-round_trip :
      (kind : SecurityKind)
      → IsDocumented lib in_millis
      → column_kind lib (Kinds.text kind) ≡ ok kind
  unfolding column_kind
  kind-round_trip kind doc =
      rw
        ((security_kind-from_str_iff lib.to_uppercase (Kinds.text kind) kind).1
          (doc.upper (Kinds.text kind) (kind-unchanged kind)))
        refl

  status-round_trip :
      (status : SecurityStatus)
      → IsDocumented lib in_millis
      → column_status lib (Statuses.text status) ≡ ok status
  unfolding column_status
  status-round_trip status doc =
      rw
        ((security_status-from_str_iff lib.to_uppercase (Statuses.text status) status).1
          (doc.upper (Statuses.text status) (status-unchanged status)))
        refl

  name-round_trip : (o : Option Text) → IsMade security_name o → column_opt_name lib o ≡ ok o
  unfolding column_opt_name
  name-round_trip o made =
      ap (λ x. convert (column (codes "name")) text_type (transpose (map_option security_name x)))
        (sym (map_option-same o))
      ∙ convert-made (column (codes "name")) text_type security_name (λ a. a) o
          (λ t a e. checked_name_idem 200 t e) made

  -- The row of a security, whatever its version, is read as that security, its time of creation cut
  -- off at milliseconds.
  pub security-from_row-inserted_row :
      (security : Security Time) (version : ℕ)
      → IsDocumented lib in_millis
      → IsSound security
      → version ≤ u32_max
      → from_row lib (record (inserted_row lib security) { version = version })
        ≡ ok (record {
          inner = record {
            content = record security { created_at = in_millis security.created_at };
            version = version;
          };
        })
  unfolding from_row inserted_row column_opt_isin column_opt_cfi reconstitute
  security-from_row-inserted_row security version doc sound fits =
      rw
        (
          kind-round_trip security.kind doc,
          status-round_trip security.status doc,
          column_datetime-canonical_timestamp lib in_millis (column (codes "created_at"))
              security.created_at doc,
          name-round_trip security.name sound.name,
          convert-made (column (codes "isin")) text_type Isins.parse Isins.as_str security.isin
              (λ t a e. isin-parse-as_str t e) sound.isin,
          convert-made (column (codes "cfi")) text_type (Cfis.parse lib.cfi_categories) Cfis.as_str
              security.cfi (λ t a e. cfi-parse-as_str lib.cfi_categories t e) sound.cfi,
          ratio-round_trip security.dr_ratio sound.dr_ratio,
          column_u32-fits (column (codes "version")) version fits,
        )
        refl
