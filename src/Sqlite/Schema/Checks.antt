-- ===== src/Sqlite/Schema/Checks.antt =====
-- What the CHECK constraints of the table `issuer` ask of a row, NULLs included.
use valqeron.Base.{
  ◌≡◌, ◌↔◌, ◌⊎◌, inl, inr, refl, sym, ap, ◌∙◌, Bool, true, false, ◌==◌, ==_iff, length, Option,
  none, some,
}
use valqeron.Domain.Common.{IsGiven}
use valqeron.Sqlite.Schema.{IssuerRecord, issuer_checks, status_check, country_check, cnpj_check}
use valqeron.Sqlite.Schema.Consistent.{and_both}
use valqeron.Sqlite.Sql.{truth, either, not_violated}
use valqeron.Text.{Text, codes, text_eq, text_eq_iff}

either-truth :
    (a b : Bool) → (not_violated (either (truth a) (truth b)) ≡ true) ↔ ((a ≡ true) ⊎ (b ≡ true))
either-truth true b = (λ _. inl refl, λ _. refl)
either-truth false true = (λ _. inr refl, λ _. refl)
either-truth false false = (λ e. absurd (cc e), λ h. elim h [ inl e ↦ cc e | inr e ↦ cc e ])

truth_iff : (a : Bool) → (not_violated (truth a) ≡ true) ↔ (a ≡ true)
truth_iff true = (λ _. refl, λ _. refl)
truth_iff false = (λ e. e, λ e. e)

status_iff :
    (status : Text)
    → (not_violated (status_check status) ≡ true)
      ↔ ((status ≡ codes "ACTIVE") ⊎ (status ≡ codes "RETIRED"))
status_iff status =
    let active = text_eq_iff status (codes "ACTIVE") in
    let retired = text_eq_iff status (codes "RETIRED") in
    let both = either-truth (text_eq status (codes "ACTIVE")) (text_eq status (codes "RETIRED")) in
    (
      λ e. elim (both.0 e) [ inl a ↦ inl (active.0 a) | inr r ↦ inr (retired.0 r) ],
      λ h. both.1 (elim h [ inl a ↦ inl (active.1 a) | inr r ↦ inr (retired.1 r) ]),
    )

country_iff :
    (country : Option Text)
    → (not_violated (country_check country) ≡ true) ↔ ((c : Text) → country ≡ some c → length c ≡ 2)
country_iff none = (λ _ c e. absurd (cc e), λ _. refl)
country_iff (some d) = (
  λ e c same. ap length (cc (sym same)) ∙ (==_iff (length d) 2).0 ((truth_iff (length d == 2)).0 e),
  λ h. (truth_iff (length d == 2)).1 ((==_iff (length d) 2).1 (h d refl)),
)

cnpj_iff :
    (cnpj country : Option Text)
    → (not_violated (cnpj_check cnpj country) ≡ true)
      ↔ (IsGiven cnpj → (c : Text) → country ≡ some c → c ≡ codes "BR")
cnpj_iff none country = (λ _ given. absurd given, λ _. refl)
cnpj_iff (some k) none = (λ _ _ c e. absurd (cc e), λ _. refl)
cnpj_iff (some k) (some d) =
    let brazil = text_eq_iff d (codes "BR") in
    let t = truth_iff (text_eq d (codes "BR")) in
    (
      λ e _ c same. let s : c ≡ d = cc same in s ∙ brazil.0 (t.0 e),
      λ h. t.1 (brazil.1 (h tt d refl)),
    )

-- The checks pass a row exactly if its status is known, its country code has two characters where
-- there is one, and, where there is a CNPJ, the country is Brazil or is not there at all: a CNPJ
-- without a country passes.
pub issuer_checks_iff :
    (r : IssuerRecord)
    → (issuer_checks r ≡ true) ↔ (
        ((r.status ≡ codes "ACTIVE") ⊎ (r.status ≡ codes "RETIRED"))
        × ((c : Text) → r.country_code ≡ some c → length c ≡ 2)
        × (IsGiven r.cnpj → (c : Text) → r.country_code ≡ some c → c ≡ codes "BR"))
unfolding issuer_checks
issuer_checks_iff r =
    let a = status_iff r.status in
    let b = country_iff r.country_code in
    let c = cnpj_iff r.cnpj r.country_code in
    (
      λ e.
          let (front, k) = and_both _ _ e in
          let (s, n) = and_both _ _ front in (a.0 s, b.0 n, c.0 k),
      λ h. rw (a.1 h.0, b.1 h.1, c.1 h.2) refl,
    )
