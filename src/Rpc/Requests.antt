-- ===== src/Rpc/Requests.antt =====
-- The requests that the client sends and the engine reads.
use valqeron.Base.{
  ℕ, ◌≡◌, ◌∙◌, ◌⊎◌, inl, inr, refl, sym, ap, [], Bool, Option, none, some, Result, ok, err, map_err,
  ◌>>=◌,
}
use valqeron.Domain.Common.{IsGiven, loaded, PatchState, empty, non_empty}
use valqeron.Domain.Ids.{IssuerId}
use valqeron.Domain.Issuer.Build as Build
use valqeron.Domain.Issuer.Build.{MayHaveCnpj}
use valqeron.Domain.Issuer.Builder as Builder
use valqeron.Domain.Issuer.Builder.{IssuerBuilder}
use valqeron.Domain.Issuer.Patch as Patch
use valqeron.Domain.Issuer.Patch.{IssuerPatch, IssuerPatchBuilder, SetsField, empty_patch}
use valqeron.Domain.Issuer.Types.{Issuer}
use valqeron.Domain.Labels.{IssuerStatus}
use valqeron.Domain.Labels.IssuerStatuses as Statuses
use valqeron.Domain.Labels.IssuerStatuses.{IssuerStatusError}
use valqeron.Domain.Names.{issuer_name, checked_name_idem}
use valqeron.Identifiers.Cnpj as Cnpjs
use valqeron.Identifiers.Cnpj.RoundTrip.{cnpj-parse-as_str}
use valqeron.Identifiers.CountryCode as Countries
use valqeron.Identifiers.CountryCode.Format.{parse_of_IsCountryCode, parse-IsCountryCode}
use valqeron.Identifiers.Lei as Leis
use valqeron.Identifiers.Lei.Format.{lei-parse-as_str}
use valqeron.Rpc.Client.{PatchIssuerRequest, issuer_to_register_request, patch_request}
use valqeron.Rpc.Issuers.{set_given_lem, from_str-text, shown, check_country-shown}
use valqeron.Rpc.Messages.{Wire, IsDocumented}
use valqeron.Rpc.Server.{
  set_given, set_patch_field, build_issuer_from_proto, parse_issuer_id_to_domain,
  patch_request_to_domain, issuer_name_error, issuer_status_error, cnpj_error, lei_error,
  country_code_error, no_field,
}
use valqeron.Sqlite.Columns.{IsMade, map_option, ok_or}
use valqeron.Sqlite.Issuers.RoundTrip.{IsSound}
use valqeron.Text.{Text}

-- The fields of a patch come from the constructors of their types.
pub record IsSoundPatch (patch : IssuerPatch) : Type 0 where
  pub name : IsMade issuer_name patch.name
  pub cnpj : IsMade Cnpjs.parse patch.cnpj
  pub lei : IsMade Leis.parse patch.lei
  pub country_code : IsMade Countries.parse patch.country_code

-- The builder of a patch, where some field is set.
abbrev builder_of : IssuerPatch → Option (IssuerPatchBuilder non_empty)
builder_of patch = elim patch.name [
  | some a ↦ some (record { inner = patch })
  | none ↦ elim patch.status [
    | some a ↦ some (record { inner = patch })
    | none ↦ elim patch.cnpj [
      | some a ↦ some (record { inner = patch })
      | none ↦ elim patch.lei [
        | some a ↦ some (record { inner = patch })
        | none ↦ elim patch.country_code [ some a ↦ some (record { inner = patch }) | none ↦ none ]
      ]
    ]
  ]
]

abbrev Shape : IssuerPatch → Type 0
Shape p = (builder_of p ≡ some (record { inner = p })) ⊎ ((builder_of p ≡ none) × (p ≡ empty_patch))

builder_cases_of :
    (n : Option Text) (s : Option IssuerStatus) (c : Option Cnpjs.Cnpj) (l : Option Leis.Lei)
    (k : Option Countries.CountryCode)
    → Shape (record { name = n; status = s; cnpj = c; lei = l; country_code = k })
builder_cases_of (some a) s c l k = inl refl
builder_cases_of none (some a) c l k = inl refl
builder_cases_of none none (some a) l k = inl refl
builder_cases_of none none none (some a) k = inl refl
builder_cases_of none none none none (some a) = inl refl
builder_cases_of none none none none none = inr (refl, refl)

builder_cases : (p : IssuerPatch) → Shape p
builder_cases p = builder_cases_of p.name p.status p.cnpj p.lei p.country_code

SetsField-builder_of : (p : IssuerPatch) → SetsField p → builder_of p ≡ some (record { inner = p })
SetsField-builder_of p sets = elim (builder_cases p) [
  | inl given ↦ given
  | inr (bare, same) ↦ absurd (elim (rw same at sets) [
    | inl a ↦ a
    | inr (inl a) ↦ a
    | inr (inr (inl a)) ↦ a
    | inr (inr (inr (inl a))) ↦ a
    | inr (inr (inr (inr a))) ↦ a
  ])
]

-- A field that is set in the builder of a patch.
set_patch_field_lem :
    (method : (state : PatchState) → IssuerPatchBuilder state → IssuerPatchBuilder non_empty)
    (p q : IssuerPatch)
    → ((state : PatchState) (b : IssuerPatchBuilder state)
        → b.inner ≡ p
        → method state b ≡ record { inner = q })
    → set_patch_field method (builder_of p) ≡ some (record { inner = q })
unfolding set_patch_field Patch.new
set_patch_field_lem method p q sets = elim (builder_cases p) [
  | inl given ↦ rw given (ap some (sets non_empty (record { inner = p }) refl))
  | inr (bare, same) ↦ rw bare (ap some (sets empty Patch.new (sym same)))
]

set_field :
    (method : (state : PatchState) → IssuerPatchBuilder state → IssuerPatchBuilder non_empty)
    (p q : IssuerPatch)
    → SetsField q
    → ((state : PatchState) (b : IssuerPatchBuilder state)
        → b.inner ≡ p
        → method state b ≡ record { inner = q })
    → set_patch_field method (builder_of p) ≡ builder_of q
set_field method p q given sets =
    set_patch_field_lem method p q sets ∙ sym (SetsField-builder_of q given)

-- A field of a request that was made, written out and read again, is set in the patch.
read_field :
    {A E F : Type 0} (make : Text → Result A E) (fault : E → F) (write : A → Text)
    (method : A → (state : PatchState) → IssuerPatchBuilder state → IssuerPatchBuilder non_empty)
    (put : IssuerPatch → Option A → IssuerPatch) (p : IssuerPatch) (o : Option A)
    → ((t : Text) (a : A) → make t ≡ ok a → make (write a) ≡ ok a)
    → IsMade make o
    → ((a : A) → SetsField (put p (some a)))
    → ((a : A) (state : PatchState) (b : IssuerPatchBuilder state)
        → (method a state b).inner ≡ put b.inner (some a))
    → ((a : A) → put (put p none) (some a) ≡ put p (some a))
    → set_given
        (map_option write o)
        (λ raw. map_err fault (make raw))
        (λ v. set_patch_field (method v))
        (builder_of (put p none))
      ≡ ok (builder_of (put p o))
read_field make fault write method put p o again made given sets twice =
    set_given_lem make fault write (λ v. set_patch_field (method v)) (λ x. builder_of (put p x)) o
      again made
      (λ a. set_field (method a) (put p none) (put p (some a)) (given a) (λ state b e.
        ap (λ (x : IssuerPatch). record { inner = x })
          (sets a state b ∙ ap (λ (x : IssuerPatch). put x (some a)) e ∙ twice a)))

module _ {Time : Type 0} (wire : Wire Time) where
  status-made :
      (o : Option IssuerStatus) → IsDocumented wire → IsMade (Statuses.from_str wire.to_uppercase) o
  status-made none doc = tt
  status-made (some s) doc = (Statuses.text s, from_str-text wire s doc)

  -- The engine makes of a request to register an issuer that issuer, under a fresh id, created at the
  -- present time cut off at milliseconds, with an empty list of securities and, where it has a CNPJ
  -- but no country, of Brazil. The fields of the issuer come from the constructors of their types,
  -- and with a CNPJ it has no other country than Brazil.
  pub build_issuer_from_proto-issuer_to_register_request :
      (fresh : IssuerId) (now : Time) (issuer : Issuer Time) (dry_run : Bool)
      → IsDocumented wire
      → IsSound issuer
      → (IsGiven issuer.cnpj → MayHaveCnpj issuer.country_code)
      → build_issuer_from_proto wire fresh now (issuer_to_register_request issuer dry_run)
        ≡ ok (record issuer {
          id = fresh;
          created_at = wire.in_millis now;
          country_code = shown issuer.cnpj issuer.country_code;
          securities = loaded [];
        })
  unfolding build_issuer_from_proto issuer_to_register_request Build.build Builder.created_at
  build_issuer_from_proto-issuer_to_register_request fresh now issuer dry_run doc sound may =
      let start : IssuerBuilder Time = record {
        id = none;
        status = none;
        created_at = some (wire.in_millis now);
        name = none;
        cnpj = none;
        lei = none;
        country_code = none;
      } in
      let told : IssuerBuilder Time = record start {
        status = some issuer.status;
        name = issuer.name;
      } in
      rw
        (
          set_given_lem issuer_name issuer_name_error (λ n. n) Builder.name
              (λ o. record start { name = o }) issuer.name (λ t a e. checked_name_idem 200 t e)
              sound.name (λ a. unfold Builder.name in refl),
          set_given_lem (Statuses.from_str wire.to_uppercase) issuer_status_error Statuses.text
              Builder.status (λ o. record start { name = issuer.name; status = o })
              (some issuer.status) (λ t a e. from_str-text wire a doc)
              (status-made (some issuer.status) doc) (λ a. unfold Builder.status in refl),
          set_given_lem Cnpjs.parse cnpj_error Cnpjs.as_str Builder.cnpj
              (λ o. record told { cnpj = o }) issuer.cnpj (λ t a e. cnpj-parse-as_str t e)
              sound.cnpj (λ a. unfold Builder.cnpj in refl),
          set_given_lem Leis.parse lei_error Leis.as_str Builder.lei
              (λ o. record told { cnpj = issuer.cnpj; lei = o }) issuer.lei
              (λ t a e. lei-parse-as_str t e) sound.lei (λ a. unfold Builder.lei in refl),
          set_given_lem Countries.parse country_code_error Countries.as_str Builder.country_code
              (λ o. record told { cnpj = issuer.cnpj; lei = issuer.lei; country_code = o })
              issuer.country_code (λ t a e. parse_of_IsCountryCode a (parse-IsCountryCode t e))
              sound.country_code (λ a. unfold Builder.country_code in refl),
          check_country-shown issuer.cnpj issuer.country_code may,
        )
        refl

  patch_request_to_domain-read :
      (id : IssuerId) (request : PatchIssuerRequest)
      → IsDocumented wire
      → IsSoundPatch request.patch
      → patch_request_to_domain wire (patch_request wire id request) ≡ (
          ok_or no_field (builder_of request.patch) >>= λ set.
          ok (id, request.expected_version, Patch.build set))
  unfolding patch_request_to_domain patch_request parse_issuer_id_to_domain
  patch_request_to_domain-read id request doc sound =
      let p = request.patch in
      let p₁ : IssuerPatch = record empty_patch { name = p.name } in
      let p₂ : IssuerPatch = record p₁ { status = p.status } in
      let p₃ : IssuerPatch = record p₂ { cnpj = p.cnpj } in
      let p₄ : IssuerPatch = record p₃ { lei = p.lei } in
      rw
        (
          doc.read_uuid id,
          read_field issuer_name issuer_name_error (λ n. n) (λ v state. Patch.name v)
              (λ q o. record q { name = o }) empty_patch p.name (λ t a e. checked_name_idem 200 t e)
              sound.name (λ a. inl tt) (λ a state b. unfold Patch.name in refl) (λ a. refl),
          read_field (Statuses.from_str wire.to_uppercase) issuer_status_error Statuses.text
              (λ v state. Patch.status v) (λ q o. record q { status = o }) p₁ p.status
              (λ t a e. from_str-text wire a doc) (status-made p.status doc) (λ a. inr (inl tt))
              (λ a state b. unfold Patch.status in refl) (λ a. refl),
          read_field Cnpjs.parse cnpj_error Cnpjs.as_str (λ v state. Patch.cnpj v)
              (λ q o. record q { cnpj = o }) p₂ p.cnpj (λ t a e. cnpj-parse-as_str t e) sound.cnpj
              (λ a. inr (inr (inl tt))) (λ a state b. unfold Patch.cnpj in refl) (λ a. refl),
          read_field Leis.parse lei_error Leis.as_str (λ v state. Patch.lei v)
              (λ q o. record q { lei = o }) p₃ p.lei (λ t a e. lei-parse-as_str t e) sound.lei
              (λ a. inr (inr (inr (inl tt)))) (λ a state b. unfold Patch.lei in refl) (λ a. refl),
          read_field Countries.parse country_code_error Countries.as_str
              (λ v state. Patch.country_code v) (λ q o. record q { country_code = o }) p₄
              p.country_code (λ t a e. parse_of_IsCountryCode a (parse-IsCountryCode t e))
              sound.country_code (λ a. inr (inr (inr (inr tt))))
              (λ a state b. unfold Patch.country_code in refl) (λ a. refl),
        )
        refl

  -- The engine reads the request that the client makes of a patch which sets some field as the id,
  -- the expected version and the patch itself. The fields of the patch come from the constructors of
  -- their types.
  pub patch_request_to_domain-patch_request :
      (id : IssuerId) (request : PatchIssuerRequest)
      → IsDocumented wire
      → IsSoundPatch request.patch
      → SetsField request.patch
      → patch_request_to_domain wire (patch_request wire id request)
        ≡ ok (id, request.expected_version, request.patch)
  unfolding Patch.build
  patch_request_to_domain-patch_request id request doc sound sets =
      patch_request_to_domain-read id request doc sound
      ∙ rw (SetsField-builder_of request.patch sets) refl

  -- A request that sets no field is refused.
  pub patch_request_to_domain_empty :
      (id : IssuerId) (expected_version : ℕ) (dry_run : Bool)
      → IsDocumented wire
      → patch_request_to_domain wire (
          patch_request wire id (record {
            expected_version = expected_version;
            patch = empty_patch;
            dry_run = dry_run;
          }))
        ≡ err no_field
  patch_request_to_domain_empty id expected_version dry_run doc =
      patch_request_to_domain-read id _ doc
        (record { name = tt; cnpj = tt; lei = tt; country_code = tt })
