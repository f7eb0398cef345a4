-- ===== src/Sqlite/Issuers/RoundTrip.antt =====
-- The row that an issuer is written to is read as the same issuer.
use valqeron.Base.{
  ℕ, ◌≤◌, ◌≡◌, refl, sym, ap, ◌∙◌, arith, Option, none, some, ok, true, all, u32_max, subst,
}
use valqeron.Domain.Common.{not_loaded, lazy}
use valqeron.Domain.Issuer.Types.{Issuer, IssuerSnapshot, reconstitute}
use valqeron.Domain.Labels.{IssuerStatus}
use valqeron.Domain.Labels.IssuerStatuses as Statuses
use valqeron.Domain.Labels.IssuerStatuses.{issuer_status-from_str_iff}
use valqeron.Domain.Names.{issuer_name, checked_name_idem}
use valqeron.Identifiers.Cnpj as Cnpjs
use valqeron.Identifiers.Cnpj.{Cnpj}
use valqeron.Identifiers.Cnpj.RoundTrip.{cnpj-parse-as_str}
use valqeron.Identifiers.CountryCode as Countries
use valqeron.Identifiers.CountryCode.{CountryCode}
use valqeron.Identifiers.CountryCode.Format.{parse_of_IsCountryCode, parse-IsCountryCode}
use valqeron.Identifiers.Lei as Leis
use valqeron.Identifiers.Lei.{Lei}
use valqeron.Identifiers.Lei.Format.{lei-parse-as_str}
use valqeron.Sqlite.Columns.{
  Library, IsDocumented, IsMade, is_unchanged, convert-made, column_datetime-canonical_timestamp,
  map_option, transpose, convert,
}
use valqeron.Sqlite.Issuers.Queries as Queries
use valqeron.Sqlite.Issuers.Repository.{sqlite_issuer_repository, find_by_id}
use valqeron.Sqlite.Issuers.Rows.{
  column_status, column_opt_name, column_opt_cnpj, column_opt_lei, column_opt_country_code,
  from_row, inserted_row, column, reconstitute_lazy,
}
use valqeron.Sqlite.Schema.{IssuerRecord, Tables, issuer_table}
use valqeron.Sqlite.Retry.{retrying_settled}
use valqeron.Sqlite.Session.{Host, Session, discard, execute, select}
use valqeron.Sqlite.Sql.{text_type, is_busy_or_locked}
use valqeron.Sqlite.Support.{after_calls, with_busy_retry-Settles}
use valqeron.Sqlite.Table.{column_u32, row_of}
use valqeron.Sqlite.Table.Accepted.{Inserted, insert_into-Inserted}
use valqeron.Sqlite.Table.Inserting.{inserted_statement}
use valqeron.Text.{Text, codes}

-- The fields of an issuer come from the constructors of their types.
pub record IsSound {Time : Type 0} (issuer : Issuer Time) : Type 0 where
  pub name : IsMade issuer_name issuer.name
  pub cnpj : IsMade Cnpjs.parse issuer.cnpj
  pub lei : IsMade Leis.parse issuer.lei
  pub country_code : IsMade Countries.parse issuer.country_code

pub column_u32-fits : (index value : ℕ) → value ≤ u32_max → column_u32 index value ≡ ok value
unfolding column_u32
column_u32-fits index value h = ground arith

status-unchanged : (status : IssuerStatus) → all is_unchanged (Statuses.text status) ≡ true
status-unchanged Statuses.active = refl
status-unchanged Statuses.retired = refl

pub map_option-same : {A : Type 0} (o : Option A) → map_option (λ a. a) o ≡ o
map_option-same none = refl
map_option-same (some a) = refl

module _ {Time : Type 0} (lib : Library Time) (in_millis : Time → Time) where
  -- What storage keeps of an issuer.
  abbrev pub kept : Issuer Time → Issuer Time
  kept issuer = record issuer { created_at = in_millis issuer.created_at; securities = not_loaded }

  abbrev pub snapshot_of : Issuer Time → IssuerSnapshot Time
  snapshot_of issuer = record {
    id = issuer.id;
    status = issuer.status;
    created_at = in_millis issuer.created_at;
    name = issuer.name;
    cnpj = issuer.cnpj;
    lei = issuer.lei;
    country_code = issuer.country_code;
    securities = not_loaded;
  }

  status-round_trip :
      (status : IssuerStatus)
      → IsDocumented lib in_millis
      → column_status lib (Statuses.text status) ≡ ok status
  unfolding column_status
  status-round_trip status doc =
      rw
        ((issuer_status-from_str_iff lib.to_uppercase (Statuses.text status) status).1
          (doc.upper (Statuses.text status) (status-unchanged status)))
        refl

  name-round_trip : (o : Option Text) → IsMade issuer_name o → column_opt_name lib o ≡ ok o
  unfolding column_opt_name
  name-round_trip o made =
      ap (λ x. convert (column (codes "name")) text_type (transpose (map_option issuer_name x)))
        (sym (map_option-same o))
      ∙ convert-made (column (codes "name")) text_type issuer_name (λ a. a) o
          (λ t a e. checked_name_idem 200 t e) made

  -- The row of a new issuer, whatever its version has become, is read as that issuer, its time of
  -- creation cut off at milliseconds and its securities not loaded.
  pub from_row-inserted_row :
      (issuer : Issuer Time) (version : ℕ)
      → IsDocumented lib in_millis
      → IsSound issuer
      → version ≤ u32_max
      → from_row lib (record (inserted_row lib issuer) { version = version })
        ≡ ok (record { inner = record { content = snapshot_of issuer; version = version } })
  unfolding from_row inserted_row column_opt_cnpj column_opt_lei column_opt_country_code
  from_row-inserted_row issuer version doc sound fits =
      rw
        (
          status-round_trip issuer.status doc,
          column_datetime-canonical_timestamp lib in_millis (column (codes "created_at"))
              issuer.created_at doc,
          name-round_trip issuer.name sound.name,
          convert-made (column (codes "cnpj")) _ Cnpjs.parse Cnpjs.as_str issuer.cnpj
              (λ t a e. cnpj-parse-as_str t e) sound.cnpj,
          convert-made (column (codes "lei")) _ Leis.parse Leis.as_str issuer.lei
              (λ t a e. lei-parse-as_str t e) sound.lei,
          convert-made (column (codes "country_code")) _ Countries.parse Countries.as_str
              issuer.country_code (λ t a e. parse_of_IsCountryCode a (parse-IsCountryCode t e))
              sound.country_code,
          column_u32-fits (column (codes "version")) version fits,
        )
        refl

  -- What an insertion that is accepted leaves in the place of the id.
  row_of-Inserted :
      (r : IssuerRecord) (t t' : Tables)
      → Inserted issuer_table r t t'
      → row_of issuer_table r.id t' ≡ some r
  row_of-Inserted r t t' i = rw i.after (ground arith)

  -- What a read that is not refused makes of a row.
  find_by_id-row :
      {World : Type 0} (host : Host World) (issuer : Issuer Time) (s : Session Tables World)
      → IsDocumented lib in_millis
      → IsSound issuer
      → host.refuses s.world 0 ≡ none
      → row_of issuer_table issuer.id s.tables ≡ some (inserted_row lib issuer)
      → find_by_id lib host issuer.id lazy s
        ≡ ok (some (record { content = kept issuer; version = 1 }))
  unfolding find_by_id Queries.find_by_id select reconstitute_lazy reconstitute inserted_row
  find_by_id-row host issuer s doc sound free found =
      rw (free, found, from_row-inserted_row issuer 1 doc sound (omega arith)) refl

module _ {Time World : Type 0} (lib : Library Time) (in_millis : Time → Time)
    (host : Host World) where
  -- An issuer that was inserted is found again by its id in the first version, with its time of
  -- creation cut off at milliseconds and its securities not loaded, where the read is not refused.
  pub issuer-insert-find_by_id :
      (issuer : Issuer Time) (s : Session Tables World)
      → IsDocumented lib in_millis
      → IsSound issuer
      → ((sqlite_issuer_repository lib host).insert issuer s).0 ≡ ok tt
      → host.refuses ((sqlite_issuer_repository lib host).insert issuer s).1.world 0 ≡ none
      → (sqlite_issuer_repository lib host).find_by_id issuer.id lazy
          ((sqlite_issuer_repository lib host).insert issuer s).1
        ≡ ok (some (record { content = kept lib in_millis issuer; version = 1 }))
  unfolding sqlite_issuer_repository Queries.insert execute inserted_row
  issuer-insert-find_by_id issuer s doc sound worked free =
      let op = discard (execute host (Queries.insert lib issuer)) in
      let k = (with_busy_retry-Settles is_busy_or_locked op s).calls in
      let s₀ = after_calls is_busy_or_locked op k s in
      let e = retrying_settled op s in
      let (n, accepted) =
        inserted_statement (host.refuses s₀.world 0) (Queries.insert lib issuer s₀.tables) s₀.tables
          (sym (ap (λ p. p.0) e) ∙ worked) in
      let same = ap (λ p. p.1) e in
      subst
        (λ x.
          find_by_id lib host issuer.id lazy x
          ≡ ok (some (record { content = kept lib in_millis issuer; version = 1 })))
        (sym same)
        (find_by_id-row lib in_millis host issuer (op s₀).1 doc sound
          (subst (λ x. host.refuses x.world 0 ≡ none) same free)
          (row_of-Inserted lib in_millis (inserted_row lib issuer) s₀.tables _
            (insert_into-Inserted issuer_table (inserted_row lib issuer) s₀.tables _ n accepted)))
