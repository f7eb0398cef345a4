-- ===== src/Sqlite/Schema/Consistent.antt =====
-- The constraints of migrations/001_create_initial_schema.sql hold of the tables as a whole, and
-- every statement of the repositories that is accepted keeps them.
use valqeron.Base.{
  ℕ, ◌≡◌, refl, sym, Bool, true, false, not, ◌&&◌, ◌==◌, ==_iff, List, Option, none, some, All,
  All-map_imp,
}
use valqeron.Domain.Steps.{Pairwise, Differ, Any, any_of, All-any_of, Any-any_of}
use valqeron.Sqlite.Schema.{
  IssuerRecord, SecurityRecord, Tables, clashes, issuer_checks, security_checks, refers,
  issuer_admits, security_admits, issuer_table, security_table,
}
use valqeron.Sqlite.Table.Find.{Distinct}
use valqeron.Text.{Text, text_eq_iff}

-- The row that an underlying security names is there.
abbrev pub Refers : List SecurityRecord → SecurityRecord → Type 0
Refers rows r = elim r.underlying_security_id [ none ↦ Unit | some u ↦ Any (λ o. o.id ≡ u) rows ]

-- Primary keys and unique columns are so, every row passes its checks, and every reference is to a
-- row that is there.
pub record IsConsistent (t : Tables) : Type 0 where
  pub issuer_ids : Distinct issuer_table t.issuer
  pub cnpjs : Pairwise (λ x y. Differ x.cnpj y.cnpj) t.issuer
  pub leis : Pairwise (λ x y. Differ x.lei y.lei) t.issuer
  pub issuers_checked : All (λ r. issuer_checks r ≡ true) t.issuer
  pub security_ids : Distinct security_table t.security
  pub isins : Pairwise (λ x y. Differ x.isin y.isin) t.security
  pub securities_checked : All (λ r. security_checks r ≡ true) t.security
  pub issuers_known : All (λ s. Any (λ i. i.id ≡ s.issuer_id) t.issuer) t.security
  pub underlying_known : All (Refers t.security) t.security

pub Differ-sym : {K : Type 0} (a b : Option K) → Differ a b → Differ b a
Differ-sym none none h = tt
Differ-sym none (some k) h = λ e. cc e
Differ-sym (some k) none h = tt
Differ-sym (some k) (some j) h = λ e. h (sym e)

clashes-Differ : (a b : Option Text) → ¬ (clashes a b ≡ true) → Differ a b
clashes-Differ none b h = tt
clashes-Differ (some a) none h = λ e. cc e
clashes-Differ (some a) (some b) h = λ e. h ((text_eq_iff b a).1 (cc e))

-- The column of a row that clashes with no other.
no_clash :
    {A : Type 0} (key : A → Option Text) (k : Option Text) (rows : List A)
    → any_of (λ o. clashes k (key o)) rows ≡ false
    → All (λ o. Differ k (key o)) rows
no_clash key k rows h =
    All-map_imp _ _ (λ o ne. clashes-Differ k (key o) ne) rows
      (All-any_of (λ o. clashes k (key o)) (λ o. clashes k (key o) ≡ true) (λ o e. e) rows h)

pub false_of_not : (b : Bool) → not b ≡ true → b ≡ false
false_of_not false h = refl
false_of_not true h = cc h

pub and_both : (a b : Bool) → (a && b) ≡ true → (a ≡ true) × (b ≡ true)
and_both true b h = (refl, h)
and_both false b h = cc h

pub record IssuerAdmitted (r : IssuerRecord) (rows : List IssuerRecord) : Type 0 where
  pub checked : issuer_checks r ≡ true
  pub cnpj : All (λ o. Differ r.cnpj o.cnpj) rows
  pub lei : All (λ o. Differ r.lei o.lei) rows

pub issuer_admits-IssuerAdmitted :
    (t : Tables) (r : IssuerRecord) (rows : List IssuerRecord)
    → issuer_admits t r rows ≡ true
    → IssuerAdmitted r rows
unfolding issuer_admits
issuer_admits-IssuerAdmitted t r rows h =
    let (front, l) = and_both _ _ h in
    let (c, k) = and_both _ _ front in
    record {
      checked = c;
      cnpj = no_clash (λ o. o.cnpj) r.cnpj rows (false_of_not _ k);
      lei = no_clash (λ o. o.lei) r.lei rows (false_of_not _ l);
    }

refers-Refers :
    (rows : List SecurityRecord) (r : SecurityRecord)
    → refers r.underlying_security_id rows ≡ true
    → Refers rows r
refers-Refers rows r h = go r.underlying_security_id h
  where
    go :
        (u : Option ℕ)
        → refers u rows ≡ true
        → (elim u as (λ _. Type 0) [ none ↦ Unit | some k ↦ Any (λ o. o.id ≡ k) rows ])
    go none h = tt
    go (some u) h = Any-any_of (λ o. o.id == u) (λ o. o.id ≡ u) (λ o. (==_iff o.id u).0) rows h

pub record SecurityAdmitted (t : Tables) (r : SecurityRecord) (rows : List SecurityRecord)
    : Type 0 where
  pub checked : security_checks r ≡ true
  pub isin : All (λ o. Differ r.isin o.isin) rows
  pub issuer : Any (λ i. i.id ≡ r.issuer_id) t.issuer
  pub underlying : Refers t.security r

pub security_admits-SecurityAdmitted :
    (t : Tables) (r : SecurityRecord) (rows : List SecurityRecord)
    → security_admits t r rows ≡ true
    → SecurityAdmitted t r rows
unfolding security_admits
security_admits-SecurityAdmitted t r rows h =
    let (front, u) = and_both _ _ h in
    let (first, i) = and_both _ _ front in
    let (c, k) = and_both _ _ first in
    record {
      checked = c;
      isin = no_clash (λ o. o.isin) r.isin rows (false_of_not _ k);
      issuer =
          Any-any_of (λ i. i.id == r.issuer_id) (λ i. i.id ≡ r.issuer_id)
            (λ i. (==_iff i.id r.issuer_id).0) t.issuer i;
      underlying = refers-Refers t.security r u;
    }

-- A reference goes on to be good where the rows it may be to are still there.
pub Refers-imp :
    (rows rows' : List SecurityRecord) (r : SecurityRecord)
    → ((u : ℕ)
        → r.underlying_security_id ≡ some u
        → Any (λ (o : SecurityRecord). o.id ≡ u) rows
        → Any (λ (o : SecurityRecord). o.id ≡ u) rows')
    → Refers rows r
    → Refers rows' r
Refers-imp rows rows' r f h = go r.underlying_security_id f h
  where
    go :
        (o : Option ℕ)
        → ((u : ℕ)
            → o ≡ some u
            → Any (λ (o : SecurityRecord). o.id ≡ u) rows
            → Any (λ (o : SecurityRecord). o.id ≡ u) rows')
        → (elim o as (λ _. Type 0) [
          | none ↦ Unit
          | some k ↦ Any (λ (o : SecurityRecord). o.id ≡ k) rows
        ])
        → (elim o as (λ _. Type 0) [
          | none ↦ Unit
          | some k ↦ Any (λ (o : SecurityRecord). o.id ≡ k) rows'
        ])
    go none f h = tt
    go (some u) f h = f u refl h
