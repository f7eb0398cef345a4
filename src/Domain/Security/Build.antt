-- ===== src/Domain/Security/Build.antt =====
-- `SecurityBuilder::build` of crates/core/src/domain/security.rs. A fresh id and the present time,
-- which the source makes where a field is unset, are arguments.
use valqeron.Base.{
  ◌≡◌, ◌≢◌, ◌↔◌, inl, inr, refl, ap, Bool, true, false, not, ◌&&◌, Option, none, some, ◌==◌,
  if◌then◌else◌, Bool-cases, arith, Result, ok, err, Result-cases, ==_iff,
}
use valqeron.Text.{Text}
use valqeron.Domain.Common.{unwrap_or, is_some, IsGiven, IsGiven-is_some}
use valqeron.Domain.Ids.{SecurityId}
use valqeron.Domain.Labels.{SecurityKind}
use valqeron.Domain.Labels.SecurityKinds as Kinds
use valqeron.Domain.Labels.SecurityStatuses as Statuses
use valqeron.Domain.Security.Builder.{SecurityBuilder}
use valqeron.Domain.Security.Types.{Security}

pub data SecurityBuilderError : Type 0 where
  underlying_requires_depositary_receipt : Text → SecurityBuilderError
  dr_ratio_requires_depositary_receipt : Text → SecurityBuilderError
  self_underlying : SecurityBuilderError

-- `if let Some(underlying) = … && underlying == &id`
abbrev pub refers_to : SecurityId → Option SecurityId → Bool
refers_to id (some underlying) = underlying == id
refers_to id none = false

module _ {Time : Type 0} where
  unfoldable pub build :
      SecurityId → Time → SecurityBuilder Time → Result (Security Time) SecurityBuilderError
  build fresh now builder =
      let id = unwrap_or builder.id fresh in
      if not (Kinds.is_depositary_receipt builder.kind) && is_some builder.underlying_security_id
      then err (underlying_requires_depositary_receipt (Kinds.text builder.kind))
      else if not (Kinds.is_depositary_receipt builder.kind) && is_some builder.dr_ratio
      then err (dr_ratio_requires_depositary_receipt (Kinds.text builder.kind))
      else if refers_to id builder.underlying_security_id
      then err self_underlying
      else ok (record {
        id = id;
        issuer_id = builder.issuer_id;
        kind = builder.kind;
        status = unwrap_or builder.status Statuses.default;
        created_at = unwrap_or builder.created_at now;
        name = builder.name;
        isin = builder.isin;
        cfi = builder.cfi;
        underlying_security_id = builder.underlying_security_id;
        dr_ratio = builder.dr_ratio;
      })

-- What a builder must satisfy: the fields of a depositary receipt are only on one, and it is not
-- its own underlying security.
pub record Buildable {Time : Type 0} (fresh : SecurityId) (b : SecurityBuilder Time) : Type 0 where
  pub underlying : IsGiven b.underlying_security_id → b.kind ≡ SecurityKind.depositary_receipt
  pub ratio : IsGiven b.dr_ratio → b.kind ≡ SecurityKind.depositary_receipt
  pub other : b.underlying_security_id ≢ some (unwrap_or b.id fresh)

kind_iff :
    (kind : SecurityKind)
    → (Kinds.is_depositary_receipt kind ≡ true) ↔ (kind ≡ SecurityKind.depositary_receipt)
kind_iff SecurityKind.depositary_receipt = (λ _. refl, λ _. refl)
kind_iff SecurityKind.common_share = (λ e. cc e, λ e. cc e)
kind_iff SecurityKind.preferred_share = (λ e. cc e, λ e. cc e)
kind_iff SecurityKind.unit = (λ e. cc e, λ e. cc e)

-- The guards of the fields of a depositary receipt.
kind_allows :
    {A : Type 0} (kind : SecurityKind) (o : Option A)
    → (not (Kinds.is_depositary_receipt kind) && is_some o) ≡ false
    → IsGiven o
    → kind ≡ SecurityKind.depositary_receipt
kind_allows kind o g h =
    let s = IsGiven-is_some o h in
    elim (Bool-cases (Kinds.is_depositary_receipt kind)) [
      | inl y ↦ (kind_iff kind).0 y
      | inr n ↦ absurd (cc (rw (n, s) at g))
    ]

allows-kind :
    {A : Type 0} (kind : SecurityKind) (o : Option A)
    → (IsGiven o → kind ≡ SecurityKind.depositary_receipt)
    → (not (Kinds.is_depositary_receipt kind) && is_some o) ≡ false
allows-kind kind none h = ground arith
allows-kind kind (some a) h = rw (h tt) refl

refers_to-other : (id : SecurityId) (o : Option SecurityId) → refers_to id o ≡ false → o ≢ some id
refers_to-other id none f e = cc e
refers_to-other id (some other) f e = ground arith

other-refers_to : (id : SecurityId) (o : Option SecurityId) → o ≢ some id → refers_to id o ≡ false
other-refers_to id none f = refl
other-refers_to id (some other) f = elim (Bool-cases (other == id)) [
  | inl y ↦ absurd (f (ap some ((==_iff other id).0 y)))
  | inr n ↦ n
]

module _ {Time : Type 0} where
  security-build_inv :
      (fresh : SecurityId) (now : Time) (b : SecurityBuilder Time) {s : Security Time}
      → build fresh now b ≡ ok s
      → Buildable fresh b
  unfolding build
  security-build_inv fresh now b {s} e =
      elim (Bool-cases
        (not (Kinds.is_depositary_receipt b.kind) && is_some b.underlying_security_id)) [
          | inl u ↦ absurd (cc (rw u at e))
          | inr u ↦
              elim (Bool-cases (not (Kinds.is_depositary_receipt b.kind) && is_some b.dr_ratio)) [
                | inl d ↦ absurd (cc (rw (u, d) at e))
                | inr d ↦
                    elim (Bool-cases (refers_to (unwrap_or b.id fresh) b.underlying_security_id)) [
                      | inl o ↦ absurd (cc (rw (u, d, o) at e))
                      | inr o ↦ record {
                        underlying = kind_allows b.kind b.underlying_security_id u;
                        ratio = kind_allows b.kind b.dr_ratio d;
                        other = refers_to-other (unwrap_or b.id fresh) b.underlying_security_id o;
                      }
                    ]
              ]
        ]

  security-build_total :
      (fresh : SecurityId) (now : Time) (b : SecurityBuilder Time)
      → Buildable fresh b
      → (s : Security Time) × (build fresh now b ≡ ok s)
  unfolding build
  security-build_total fresh now b h = elim (Result-cases (build fresh now b)) [
    | inl built ↦ built
    | inr (error, failed) ↦ absurd (
        cc (
          rw
            (
              allows-kind b.kind b.underlying_security_id h.underlying,
              allows-kind b.kind b.dr_ratio h.ratio,
              other-refers_to (unwrap_or b.id fresh) b.underlying_security_id h.other,
            )
            at failed))
  ]

  -- A security is built exactly if only a depositary receipt is given an underlying security or a
  -- ratio, and the underlying security is not the one that is built.
  pub security-build_iff :
      (fresh : SecurityId) (now : Time) (b : SecurityBuilder Time)
      → ((s : Security Time) × (build fresh now b ≡ ok s)) ↔ Buildable fresh b
  security-build_iff fresh now b =
      (λ h. security-build_inv fresh now b h.1, security-build_total fresh now b)
