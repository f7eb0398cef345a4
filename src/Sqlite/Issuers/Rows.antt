-- ===== src/Sqlite/Issuers/Rows.antt =====
-- The mappings of crates/infrastructure/src/sqlite/repositories/issuer.rs between a row of the table
-- and an issuer.
use valqeron.Base.{ℕ, List, [], ◌∷◌, Option, Result, ok, ◌>>=◌}
use valqeron.Domain.Common.{Versioned, not_loaded, loaded}
use valqeron.Domain.Issuer.Types.{Issuer, IssuerSnapshot, reconstitute}
use valqeron.Domain.Labels.{IssuerStatus}
use valqeron.Domain.Labels.IssuerStatuses as Statuses
use valqeron.Domain.Names.{IssuerName, issuer_name}
use valqeron.Domain.Security.Types.{Security}
use valqeron.Identifiers.Cnpj as Cnpjs
use valqeron.Identifiers.Cnpj.{Cnpj}
use valqeron.Identifiers.CountryCode as Countries
use valqeron.Identifiers.CountryCode.{CountryCode}
use valqeron.Identifiers.Lei as Leis
use valqeron.Identifiers.Lei.{Lei}
use valqeron.Sqlite.Columns.{
  Library, column_index, column_datetime, canonical_timestamp, convert, transpose, map_option,
}
use valqeron.Sqlite.Schema.{IssuerRecord}
use valqeron.Sqlite.Sql.{SqlError, text_type}
use valqeron.Sqlite.Table.{column_u32}
use valqeron.Text.{Text, codes}

-- `ISSUER_COLUMNS`
abbrev pub issuer_columns : List Text
issuer_columns =
    codes "id"
    ∷ codes "name"
    ∷ codes "status"
    ∷ codes "created_at"
    ∷ codes "cnpj"
    ∷ codes "lei"
    ∷ codes "country_code"
    ∷ codes "version"
    ∷ []

abbrev pub column : Text → ℕ
column name = column_index issuer_columns name

-- `IssuerRow`
pub record IssuerRow (Time : Type 0) : Type 0 where
  pub inner : Versioned (IssuerSnapshot Time)

module _ {Time : Type 0} (lib : Library Time) where
  unfoldable pub column_status : Text → Result IssuerStatus SqlError
  column_status raw =
      convert (column (codes "status")) text_type (Statuses.from_str lib.to_uppercase raw)

  unfoldable pub column_opt_name : Option Text → Result (Option IssuerName) SqlError
  column_opt_name raw =
      convert (column (codes "name")) text_type (transpose (map_option issuer_name raw))

  unfoldable pub column_opt_cnpj : Option Text → Result (Option Cnpj) SqlError
  column_opt_cnpj raw =
      convert (column (codes "cnpj")) text_type (transpose (map_option Cnpjs.parse raw))

  unfoldable pub column_opt_lei : Option Text → Result (Option Lei) SqlError
  column_opt_lei raw =
      convert (column (codes "lei")) text_type (transpose (map_option Leis.parse raw))

  unfoldable pub column_opt_country_code : Option Text → Result (Option CountryCode) SqlError
  column_opt_country_code raw =
      convert (column (codes "country_code")) text_type (transpose (map_option Countries.parse raw))

  unfoldable pub from_row : IssuerRecord → Result (IssuerRow Time) SqlError
  from_row row = do
    status ← column_status row.status
    created_at ← column_datetime lib (column (codes "created_at")) row.created_at
    name ← column_opt_name row.name
    cnpj ← column_opt_cnpj row.cnpj
    lei ← column_opt_lei row.lei
    country_code ← column_opt_country_code row.country_code
    version ← column_u32 (column (codes "version")) row.version
    ok (record {
      inner = record {
        content = record {
          id = row.id;
          status = status;
          created_at = created_at;
          name = name;
          cnpj = cnpj;
          lei = lei;
          country_code = country_code;
          securities = not_loaded;
        };
        version = version;
      };
    })

  -- The values that an INSERT binds, in a row of the first version.
  unfoldable pub inserted_row : Issuer Time → IssuerRecord
  inserted_row issuer = record {
    id = issuer.id;
    name = issuer.name;
    status = Statuses.text issuer.status;
    created_at = canonical_timestamp lib issuer.created_at;
    version = 1;
    cnpj = map_option Cnpjs.as_str issuer.cnpj;
    lei = map_option Leis.as_str issuer.lei;
    country_code = map_option Countries.as_str issuer.country_code;
  }

module _ {Time : Type 0} where
  unfoldable pub reconstitute_lazy : IssuerRow Time → Versioned (Issuer Time)
  reconstitute_lazy row = record {
    content = reconstitute row.inner.content;
    version = row.inner.version;
  }

  unfoldable pub reconstitute_with :
      Versioned (IssuerSnapshot Time) → List (Security Time) → Versioned (Issuer Time)
  reconstitute_with snapshot securities = record {
    content = reconstitute (record (snapshot.content) { securities = loaded securities });
    version = snapshot.version;
  }
