-- ===== src/Sqlite/Schema/KeptIssuers.antt =====
-- An accepted statement on the table of issuers keeps the tables consistent.
use valqeron.Base.{ℕ, ◌≡◌, ◌≢◌, inr, sym, ◌∙◌, subst, Bool, true, ◌==◌, ==_iff, All, All-map_imp}
use valqeron.Domain.Steps.{Differ, All-any_of}
use valqeron.Sqlite.Schema.{IssuerRecord, Tables, issuer_released, issuer_table, issuer_checks}
use valqeron.Sqlite.Schema.Consistent.{
  IsConsistent, Differ-sym, IssuerAdmitted, issuer_admits-IssuerAdmitted, false_of_not,
}
use valqeron.Sqlite.Table.{guard, others}
use valqeron.Sqlite.Table.Accepted.{Inserted, Updated, Deleted, others-All}
use valqeron.Sqlite.Table.Keeping.{
  All-both, All-swap, All-delete, Pairwise-delete, All-update, Any-update, Any-delete,
  Pairwise-update, Distinct-update,
}

pub issuer-Inserted-IsConsistent :
    (r : IssuerRecord) (t t' : Tables)
    → Inserted issuer_table r t t'
    → IsConsistent t
    → IsConsistent t'
issuer-Inserted-IsConsistent r t t' i c =
    let a = issuer_admits-IssuerAdmitted t r t.issuer i.admitted in
    subst IsConsistent (sym i.after) (record {
      issuer_ids = (i.fresh, c.issuer_ids);
      cnpjs = (a.cnpj, c.cnpjs);
      leis = (a.lei, c.leis);
      issuers_checked = (a.checked, c.issuers_checked);
      security_ids = c.security_ids;
      isins = c.isins;
      securities_checked = c.securities_checked;
      issuers_known = All-map_imp _ _ (λ s k. inr k) t.security c.issuers_known;
      underlying_known = c.underlying_known;
    })

pub issuer-Updated-IsConsistent :
    (id version : ℕ) (change : IssuerRecord → IssuerRecord) (t t' : Tables)
    → ((r : IssuerRecord) → (change r).id ≡ r.id)
    → Updated issuer_table id version change t t'
    → IsConsistent t
    → IsConsistent t'
issuer-Updated-IsConsistent id version change t t' keeps u c =
    subst IsConsistent (sym u.after) (record {
      issuer_ids = Distinct-update issuer_table test change t.issuer keeps c.issuer_ids;
      cnpjs =
          Pairwise-update issuer_table (λ x y. Differ x.cnpj y.cnpj) id version change t.issuer
            (λ a b. Differ-sym a.cnpj b.cnpj) c.issuer_ids c.cnpjs
            (All-map_imp _ _
              (λ r k g.
                others-All issuer_table (λ o. Differ (change r).cnpj o.cnpj) id t.issuer
                  ((k g).cnpj))
              t.issuer admitted);
      leis =
          Pairwise-update issuer_table (λ x y. Differ x.lei y.lei) id version change t.issuer
            (λ a b. Differ-sym a.lei b.lei) c.issuer_ids c.leis
            (All-map_imp _ _
              (λ r k g.
                others-All issuer_table (λ o. Differ (change r).lei o.lei) id t.issuer ((k g).lei))
              t.issuer admitted);
      issuers_checked =
          All-update (λ r. issuer_checks r ≡ true) test change t.issuer c.issuers_checked
            (All-map_imp _ _ (λ r k g. (k g).checked) t.issuer admitted);
      security_ids = c.security_ids;
      isins = c.isins;
      securities_checked = c.securities_checked;
      issuers_known =
          All-map_imp _ _
            (λ s k.
              Any-update (λ i. i.id ≡ s.issuer_id) test change t.issuer (λ i e. keeps i ∙ e) k)
            t.security c.issuers_known;
      underlying_known = c.underlying_known;
    })
  where
    test : IssuerRecord → Bool
    test = guard issuer_table id version

    admitted :
        All
          (λ r.
            guard issuer_table id version r ≡ true
            → IssuerAdmitted (change r) (others issuer_table id t.issuer))
          t.issuer
    admitted =
        All-map_imp _ _
          (λ r k g.
            issuer_admits-IssuerAdmitted t (change r) (others issuer_table id t.issuer) (k g))
          t.issuer u.admitted

pub issuer-Deleted-IsConsistent :
    (id version : ℕ) (t t' : Tables)
    → Deleted issuer_table id version t t'
    → IsConsistent t
    → IsConsistent t'
unfolding issuer_released
issuer-Deleted-IsConsistent id version t t' d c = subst IsConsistent (sym d.after) (record {
  issuer_ids = Pairwise-delete _ test t.issuer c.issuer_ids;
  cnpjs = Pairwise-delete _ test t.issuer c.cnpjs;
  leis = Pairwise-delete _ test t.issuer c.leis;
  issuers_checked = All-delete _ test t.issuer c.issuers_checked;
  security_ids = c.security_ids;
  isins = c.isins;
  securities_checked = c.securities_checked;
  issuers_known =
      All-both t.security (λ s k free. Any-delete (λ i. i.id ≡ s.issuer_id) test t.issuer free k)
        c.issuers_known unreferred;
  underlying_known = c.underlying_known;
})
  where
    test : IssuerRecord → Bool
    test = guard issuer_table id version

    unreferred : All (λ s. All (λ i. test i ≡ true → i.id ≢ s.issuer_id) t.issuer) t.security
    unreferred =
        All-swap (λ i. test i ≡ true) (λ i s. i.id ≢ s.issuer_id) t.issuer t.security
          (All-map_imp _ _
            (λ i k g.
              All-any_of (λ s. s.issuer_id == i.id) (λ s. i.id ≡ s.issuer_id)
                (λ s e. (==_iff s.issuer_id i.id).1 (sym e)) t.security (false_of_not _ (k g)))
            t.issuer d.released)
