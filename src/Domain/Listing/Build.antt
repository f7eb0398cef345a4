-- ===== src/Domain/Listing/Build.antt =====
-- `ListingBuilder::build` of crates/core/src/domain/listing.rs. A fresh id and the present time,
-- which the source makes where a field is unset, are arguments, and so is the order of dates.
use valqeron.Base.{
  ◌≡◌, ◌↔◌, inl, inr, refl, ap, sym, ◌∙◌, Bool, true, false, not, ◌&&◌, Option, none, some,
  if◌then◌else◌, Bool-cases, arith, Result, ok, err, Result-cases, ok-injective, subst,
}
use valqeron.Text.{Text}
use valqeron.Domain.Common.{unwrap_or, is_some, IsGiven}
use valqeron.Domain.Ids.{ListingId}
use valqeron.Domain.Labels.{ListingStatus}
use valqeron.Domain.Labels.ListingStatuses as Statuses
use valqeron.Domain.Labels.ListingRoles as Roles
use valqeron.Domain.Listing.Builder.{ListingBuilder}
use valqeron.Domain.Listing.Types.{Listing}

pub data ListingBuilderError (Date : Type 0) : Type 0 where
  delisted_date_requires_delisted_status : Text → ListingBuilderError Date
  delisted_before_listed : Date → Date → ListingBuilderError Date

module _ {Date : Type 0} (is_before : Date → Date → Bool) where
  -- The check of the chronology, and then the rest.
  unfoldable pub check_dates :
      {A : Type 0}
      → Option Date
      → Option Date
      → Result A (ListingBuilderError Date)
      → Result A (ListingBuilderError Date)
  check_dates (some listed_on) (some delisted_on) rest =
      if is_before delisted_on listed_on
      then err (delisted_before_listed listed_on delisted_on)
      else rest
  check_dates _ _ rest = rest

module _ {Time Date : Type 0} (is_before : Date → Date → Bool) where
  unfoldable pub build :
      ListingId
      → Time
      → ListingBuilder Time Date
      → Result (Listing Time Date) (ListingBuilderError Date)
  build fresh now builder =
      let status = unwrap_or builder.status Statuses.default in
      if is_some builder.delisted_on && not (Statuses.is_delisted status)
      then err (delisted_date_requires_delisted_status (Statuses.text status))
      else check_dates is_before builder.listed_on builder.delisted_on (
          ok (record {
            id = unwrap_or builder.id fresh;
            security_id = builder.security_id;
            venue_id = builder.venue_id;
            symbol = builder.symbol;
            role = unwrap_or builder.role Roles.default;
            status = status;
            created_at = unwrap_or builder.created_at now;
            currency = builder.currency;
            segment = builder.segment;
            listed_on = builder.listed_on;
            delisted_on = builder.delisted_on;
          }))

-- A delisting date is only on a delisted listing, and is not before the listing date.
abbrev pub InOrder : {Date : Type 0} → (Date → Date → Bool) → Option Date → Option Date → Type 0
InOrder is_before (some listed) (some delisted) = is_before delisted listed ≡ false
InOrder is_before _ _ = Unit

pub record IsChronological {Time Date : Type 0} (is_before : Date → Date → Bool)
    (l : Listing Time Date) : Type 0 where
  pub delisted : IsGiven l.delisted_on → l.status ≡ ListingStatus.delisted
  pub in_order : InOrder is_before l.listed_on l.delisted_on

status_iff : (s : ListingStatus) → (Statuses.is_delisted s ≡ true) ↔ (s ≡ ListingStatus.delisted)
status_iff ListingStatus.delisted = (λ _. refl, λ _. refl)
status_iff ListingStatus.active = (λ e. cc e, λ e. cc e)
status_iff ListingStatus.suspended = (λ e. cc e, λ e. cc e)

check_dates-ok :
    {A Date : Type 0} (is_before : Date → Date → Bool) (o p : Option Date)
    (rest : Result A (ListingBuilderError Date)) {a : A}
    → check_dates is_before o p rest ≡ ok a
    → (rest ≡ ok a) × InOrder is_before o p
unfolding check_dates
check_dates-ok is_before (some l) (some d) rest e = ground arith
check_dates-ok is_before none (some d) rest e = (e, tt)
check_dates-ok is_before (some l) none rest e = (e, tt)
check_dates-ok is_before none none rest e = (e, tt)

check_dates-pass :
    {A Date : Type 0} (is_before : Date → Date → Bool) (o p : Option Date)
    (rest : Result A (ListingBuilderError Date))
    → InOrder is_before o p
    → check_dates is_before o p rest ≡ rest
unfolding check_dates
check_dates-pass is_before (some l) (some d) rest e = rw e refl
check_dates-pass is_before none (some d) rest e = refl
check_dates-pass is_before (some l) none rest e = refl
check_dates-pass is_before none none rest e = refl

status_allows :
    {A : Type 0} (o : Option A) (s : ListingStatus)
    → (is_some o && not (Statuses.is_delisted s)) ≡ false
    → IsGiven o
    → s ≡ ListingStatus.delisted
status_allows none s g h = absurd h
status_allows (some a) s g h = (status_iff s).0 (ground arith)

allows-status :
    {A : Type 0} (o : Option A) (s : ListingStatus)
    → (IsGiven o → s ≡ ListingStatus.delisted)
    → (is_some o && not (Statuses.is_delisted s)) ≡ false
allows-status none s h = refl
allows-status (some a) s h = rw (h tt) refl

module _ {Time Date : Type 0} (is_before : Date → Date → Bool) where
  listing-build_inv :
      (fresh : ListingId) (now : Time) (b : ListingBuilder Time Date)
      → ((l : Listing Time Date) × (build is_before fresh now b ≡ ok l))
      → (IsGiven b.delisted_on → unwrap_or b.status Statuses.default ≡ ListingStatus.delisted)
        × InOrder is_before b.listed_on b.delisted_on
  unfolding build
  listing-build_inv fresh now b (l, e) =
      elim (Bool-cases (
        is_some b.delisted_on
        && not (Statuses.is_delisted (unwrap_or b.status Statuses.default)))) [
          | inl t ↦ absurd (cc (rw t at e))
          | inr t ↦ (
            status_allows b.delisted_on (unwrap_or b.status Statuses.default) t,
            (check_dates-ok is_before b.listed_on b.delisted_on _ (rw t at e)).1,
          )
        ]

  listing-build_total :
      (fresh : ListingId) (now : Time) (b : ListingBuilder Time Date)
      → (IsGiven b.delisted_on → unwrap_or b.status Statuses.default ≡ ListingStatus.delisted)
        × InOrder is_before b.listed_on b.delisted_on
      → (l : Listing Time Date) × (build is_before fresh now b ≡ ok l)
  unfolding build
  listing-build_total fresh now b (h, k) = elim (Result-cases (build is_before fresh now b)) [
    | inl built ↦ built
    | inr (error, failed) ↦ absurd (
        cc (
          rw
            (
              allows-status b.delisted_on (unwrap_or b.status Statuses.default) h,
              check_dates-pass is_before b.listed_on b.delisted_on _ k,
            )
            at failed))
  ]

  -- A listing that is built has a delisting date only if it is delisted, and never one before its
  -- listing date.
  pub listing-build-IsChronological :
      (fresh : ListingId) (now : Time) (b : ListingBuilder Time Date) {l : Listing Time Date}
      → build is_before fresh now b ≡ ok l
      → IsChronological is_before l
  unfolding build
  listing-build-IsChronological fresh now b {l} e =
      elim (Bool-cases (
        is_some b.delisted_on
        && not (Statuses.is_delisted (unwrap_or b.status Statuses.default)))) [
          | inl t ↦ absurd (cc (rw t at e))
          | inr t ↦
              let (made, ordered) =
                check_dates-ok is_before b.listed_on b.delisted_on _ (rw t at e) in
              let same = ok-injective made in
              record {
                delisted = λ h.
                    sym (ap (λ (x : Listing Time Date). x.status) same)
                    ∙ status_allows b.delisted_on (unwrap_or b.status Statuses.default) t (
                        subst IsGiven (sym (ap (λ (x : Listing Time Date). x.delisted_on) same)) h);
                in_order =
                    subst (λ (x : Listing Time Date). InOrder is_before x.listed_on x.delisted_on)
                      same ordered;
              }
        ]

  -- A listing is built exactly if a delisting date comes with the status of a delisted listing, and
  -- is not before the listing date.
  pub listing-build_iff :
      (fresh : ListingId) (now : Time) (b : ListingBuilder Time Date)
      → ((l : Listing Time Date) × (build is_before fresh now b ≡ ok l)) ↔ (
          (IsGiven b.delisted_on → unwrap_or b.status Statuses.default ≡ ListingStatus.delisted)
          × InOrder is_before b.listed_on b.delisted_on)
  listing-build_iff fresh now b = (listing-build_inv fresh now b, listing-build_total fresh now b)
