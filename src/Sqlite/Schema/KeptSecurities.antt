-- ===== src/Sqlite/Schema/KeptSecurities.antt =====
-- An accepted statement on the table of securities keeps the tables consistent.
use valqeron.Base.{
  ℕ, ◌≡◌, ◌≢◌, inr, sym, ◌∙◌, subst, Bool, true, ==_iff, ◌∷◌, some, All, All-map_imp,
}
use valqeron.Domain.Steps.{Differ, Any, All-any_of}
use valqeron.Sqlite.Schema.{
  SecurityRecord, Tables, is_underlying_of, security_released, security_table, security_checks,
}
use valqeron.Sqlite.Schema.Consistent.{
  IsConsistent, Refers, Refers-imp, Differ-sym, SecurityAdmitted, security_admits-SecurityAdmitted,
  false_of_not,
}
use valqeron.Sqlite.Sql.{update_where, delete_where}
use valqeron.Sqlite.Table.{guard, others}
use valqeron.Sqlite.Table.Accepted.{Inserted, Updated, Deleted, others-All}
use valqeron.Sqlite.Table.Keeping.{
  All-both, All-swap, All-delete, Pairwise-delete, All-update, Any-update, Any-delete,
  Pairwise-update, Distinct-update,
}

pub security-Inserted-IsConsistent :
    (r : SecurityRecord) (t t' : Tables)
    → Inserted security_table r t t'
    → IsConsistent t
    → IsConsistent t'
security-Inserted-IsConsistent r t t' i c =
    let a = security_admits-SecurityAdmitted t r t.security i.admitted in
    let more =
      λ (s : SecurityRecord). Refers-imp t.security (r ∷ t.security) s (λ u e there. inr there) in
    subst IsConsistent (sym i.after) (record {
      issuer_ids = c.issuer_ids;
      cnpjs = c.cnpjs;
      leis = c.leis;
      issuers_checked = c.issuers_checked;
      security_ids = (i.fresh, c.security_ids);
      isins = (a.isin, c.isins);
      securities_checked = (a.checked, c.securities_checked);
      issuers_known = (a.issuer, c.issuers_known);
      underlying_known =
          (more r a.underlying, All-map_imp _ _ (λ s k. more s k) t.security c.underlying_known);
    })

pub security-Updated-IsConsistent :
    (id version : ℕ) (change : SecurityRecord → SecurityRecord) (t t' : Tables)
    → ((r : SecurityRecord) → (change r).id ≡ r.id)
    → Updated security_table id version change t t'
    → IsConsistent t
    → IsConsistent t'
security-Updated-IsConsistent id version change t t' keeps u c =
    subst IsConsistent (sym u.after) (record {
      issuer_ids = c.issuer_ids;
      cnpjs = c.cnpjs;
      leis = c.leis;
      issuers_checked = c.issuers_checked;
      security_ids = Distinct-update security_table test change t.security keeps c.security_ids;
      isins =
          Pairwise-update security_table (λ x y. Differ x.isin y.isin) id version change t.security
            (λ a b. Differ-sym a.isin b.isin) c.security_ids c.isins
            (All-map_imp _ _
              (λ r k g.
                others-All security_table (λ o. Differ (change r).isin o.isin) id t.security
                  ((k g).isin))
              t.security admitted);
      securities_checked =
          All-update (λ r. security_checks r ≡ true) test change t.security c.securities_checked
            (All-map_imp _ _ (λ r k g. (k g).checked) t.security admitted);
      issuers_known =
          All-update (λ s. Any (λ i. i.id ≡ s.issuer_id) t.issuer) test change t.security
            c.issuers_known (All-map_imp _ _ (λ r k g. (k g).issuer) t.security admitted);
      underlying_known = All-map_imp _ _ still (update_where test change t.security) (
          All-update (Refers t.security) test change t.security c.underlying_known
            (All-map_imp _ _ (λ r k g. (k g).underlying) t.security admitted));
    })
  where
    test : SecurityRecord → Bool
    test = guard security_table id version

    admitted :
        All
          (λ r.
            guard security_table id version r ≡ true
            → SecurityAdmitted t (change r) (others security_table id t.security))
          t.security
    admitted =
        All-map_imp _ _
          (λ r k g.
            security_admits-SecurityAdmitted t (change r) (others security_table id t.security)
              (k g))
          t.security u.admitted

    still :
        (s : SecurityRecord) → Refers t.security s → Refers (update_where test change t.security) s
    still s =
        Refers-imp t.security (update_where test change t.security) s
          (λ k e. Any-update (λ o. o.id ≡ k) test change t.security (λ o same. keeps o ∙ same))

pub security-Deleted-IsConsistent :
    (id version : ℕ) (t t' : Tables)
    → Deleted security_table id version t t'
    → IsConsistent t
    → IsConsistent t'
unfolding security_released
security-Deleted-IsConsistent id version t t' d c = subst IsConsistent (sym d.after) (record {
  issuer_ids = c.issuer_ids;
  cnpjs = c.cnpjs;
  leis = c.leis;
  issuers_checked = c.issuers_checked;
  security_ids = Pairwise-delete _ test t.security c.security_ids;
  isins = Pairwise-delete _ test t.security c.isins;
  securities_checked = All-delete _ test t.security c.securities_checked;
  issuers_known = All-delete _ test t.security c.issuers_known;
  underlying_known = All-delete _ test t.security (
      All-both t.security
        (λ s k free.
          Refers-imp t.security (delete_where test t.security) s
            (λ u e.
              Any-delete (λ o. o.id ≡ u) test t.security
                (All-map_imp _ _ (λ o f g same. f g (named s u e o same)) t.security free))
            k)
        c.underlying_known unreferred);
})
  where
    test : SecurityRecord → Bool
    test = guard security_table id version

    named :
        (s : SecurityRecord) (u : ℕ)
        → s.underlying_security_id ≡ some u
        → (o : SecurityRecord) → o.id ≡ u
        → is_underlying_of o.id s ≡ true
    named s u e o same = rw e ((==_iff u o.id).1 (sym same))

    unreferred :
        All (λ s. All (λ o. test o ≡ true → is_underlying_of o.id s ≢ true) t.security) t.security
    unreferred =
        All-swap (λ o. test o ≡ true) (λ o s. is_underlying_of o.id s ≢ true) t.security t.security
          (All-map_imp _ _
            (λ o k g.
              All-any_of (is_underlying_of o.id) (λ s. is_underlying_of o.id s ≡ true) (λ s e. e)
                t.security (false_of_not _ (k g)))
            t.security d.released)
