-- ===== src/Sqlite/Securities/Rows.antt =====
-- The mappings of crates/infrastructure/src/sqlite/repositories/securities.rs between a row of the
-- table and a security.
use valqeron.Base.{ℕ, List, [], ◌∷◌, Option, none, some, Result, ok, err, ◌>>=◌}
use valqeron.Domain.Common.{Versioned}
use valqeron.Domain.Labels.{SecurityKind, SecurityStatus}
use valqeron.Domain.Labels.SecurityKinds as Kinds
use valqeron.Domain.Labels.SecurityStatuses as Statuses
use valqeron.Domain.Names.{SecurityName, security_name}
use valqeron.Domain.Ratio.{DepositaryReceiptRatio, dr_ratio}
use valqeron.Domain.Security.Types.{Security, reconstitute}
use valqeron.Identifiers.Cfi as Cfis
use valqeron.Identifiers.Cfi.{Cfi}
use valqeron.Identifiers.Isin as Isins
use valqeron.Identifiers.Isin.{Isin}
use valqeron.Sqlite.Columns.{
  Library, column_index, column_datetime, canonical_timestamp, conversion_failure, convert,
  transpose, map_option,
}
use valqeron.Sqlite.Schema.{SecurityRecord}
use valqeron.Sqlite.Sql.{SqlError, text_type, integer_type}
use valqeron.Sqlite.Table.{column_u32}
use valqeron.Text.{Text, codes}

-- `SECURITY_COLUMNS`
abbrev pub security_columns : List Text
security_columns =
    codes "id"
    ∷ codes "issuer_id"
    ∷ codes "name"
    ∷ codes "kind"
    ∷ codes "status"
    ∷ codes "created_at"
    ∷ codes "isin"
    ∷ codes "cfi"
    ∷ codes "underlying_security_id"
    ∷ codes "dr_ratio_receipts"
    ∷ codes "dr_ratio_underlying"
    ∷ codes "version"
    ∷ []

abbrev pub column : Text → ℕ
column name = column_index security_columns name

-- `SecurityRow`
pub record SecurityRow (Time : Type 0) : Type 0 where
  pub inner : Versioned (Security Time)

abbrev pub read_u32 : ℕ → Option ℕ → Result (Option ℕ) SqlError
read_u32 index none = ok none
read_u32 index (some n) = column_u32 index n >>= λ value. ok (some value)

-- The match on the two columns of a ratio; `DrRatioPairError` where only one is set.
abbrev pub ratio_of : ℕ → Option ℕ → Option ℕ → Result (Option DepositaryReceiptRatio) SqlError
ratio_of index (some receipts) (some underlying) =
    convert index integer_type (dr_ratio receipts underlying) >>= λ ratio. ok (some ratio)
ratio_of index none none = ok none
ratio_of index (some receipts) none = err (conversion_failure index integer_type)
ratio_of index none (some underlying) = err (conversion_failure index integer_type)

unfoldable pub column_opt_dr_ratio :
    Option ℕ → Option ℕ → Result (Option DepositaryReceiptRatio) SqlError
column_opt_dr_ratio receipts_column underlying_column = do
  receipts ← read_u32 (column (codes "dr_ratio_receipts")) receipts_column
  underlying ← read_u32 (column (codes "dr_ratio_underlying")) underlying_column
  ratio_of (column (codes "dr_ratio_receipts")) receipts underlying

module _ {Time : Type 0} (lib : Library Time) where
  unfoldable pub column_kind : Text → Result SecurityKind SqlError
  column_kind raw = convert (column (codes "kind")) text_type (Kinds.from_str lib.to_uppercase raw)

  unfoldable pub column_status : Text → Result SecurityStatus SqlError
  column_status raw =
      convert (column (codes "status")) text_type (Statuses.from_str lib.to_uppercase raw)

  unfoldable pub column_opt_name : Option Text → Result (Option SecurityName) SqlError
  column_opt_name raw =
      convert (column (codes "name")) text_type (transpose (map_option security_name raw))

  unfoldable pub column_opt_isin : Option Text → Result (Option Isin) SqlError
  column_opt_isin raw =
      convert (column (codes "isin")) text_type (transpose (map_option Isins.parse raw))

  unfoldable pub column_opt_cfi : Option Text → Result (Option Cfi) SqlError
  column_opt_cfi raw =
      convert (column (codes "cfi")) text_type
        (transpose (map_option (Cfis.parse lib.cfi_categories) raw))

  unfoldable pub from_row : SecurityRecord → Result (SecurityRow Time) SqlError
  from_row row = do
    kind ← column_kind row.kind
    status ← column_status row.status
    created_at ← column_datetime lib (column (codes "created_at")) row.created_at
    name ← column_opt_name row.name
    isin ← column_opt_isin row.isin
    cfi ← column_opt_cfi row.cfi
    dr_ratio ← column_opt_dr_ratio row.dr_ratio_receipts row.dr_ratio_underlying
    version ← column_u32 (column (codes "version")) row.version
    ok (record {
      inner = record {
        content = reconstitute (record {
          id = row.id;
          issuer_id = row.issuer_id;
          kind = kind;
          status = status;
          created_at = created_at;
          name = name;
          isin = isin;
          cfi = cfi;
          underlying_security_id = row.underlying_security_id;
          dr_ratio = dr_ratio;
        });
        version = version;
      };
    })

  -- The values that an INSERT binds, in a row of the first version.
  unfoldable pub inserted_row : Security Time → SecurityRecord
  inserted_row security = record {
    id = security.id;
    issuer_id = security.issuer_id;
    name = security.name;
    kind = Kinds.text security.kind;
    status = Statuses.text security.status;
    created_at = canonical_timestamp lib security.created_at;
    version = 1;
    isin = map_option Isins.as_str security.isin;
    cfi = map_option Cfis.as_str security.cfi;
    underlying_security_id = security.underlying_security_id;
    dr_ratio_receipts = map_option (λ r. r.receipts) security.dr_ratio;
    dr_ratio_underlying = map_option (λ r. r.underlying) security.dr_ratio;
  }
