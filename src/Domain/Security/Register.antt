-- ===== src/Domain/Security/Register.antt =====
-- What the registration of a security does to a store, given what its repository promises.
use valqeron.Base.{
  ◌≡◌, ◌≢◌, inl, inr, refl, sym, subst, ap, ◌∙◌, Bool, true, false, not, Option, none, some, List,
  ◌∷◌, Result, ok, err, All,
}
use valqeron.Domain.Ids.{SecurityId}
use valqeron.Domain.Issuer.Service.{IssuerRepository}
use valqeron.Domain.Security.Service.{
  SecurityRepository, RegisterSecurityError, unknown_issuer, duplicate_isin,
  unknown_underlying_security, check_underlying, register_security,
}
use valqeron.Domain.Security.Types.{Security}
use valqeron.Domain.Steps.{
  Step, ◌>>◌, check-rule, command-rule, reject_found, reject_found-cases, command, Any, Differ,
  Shares,
}
use valqeron.Identifiers.Isin.{Isin}

-- What a store holds in the place of securities: its items, the key of an item, and the item that a
-- security is entered as.
pub record SecurityView (S Item Time : Type 0) : Type 0 where
  pub items : S → List Item
  pub isin_of : Item → Option Isin
  pub entered : Security Time → Item

-- What a repository promises of the items in its store: the lookup finds what is there, an insertion
-- adds the item of the security, which has its key, and one that fails changes nothing.
pub record IsFaithful {S Fault Time Item : Type 0} (repo : SecurityRepository S Fault Time)
    (view : SecurityView S Item Time) : Type 0 where
  pub free :
      (isin : Isin) (s : S)
      → repo.exists_by_isin isin s ≡ ok false
      → All (λ x. view.isin_of x ≢ some isin) (view.items s)
  pub taken :
      (isin : Isin) (s : S)
      → repo.exists_by_isin isin s ≡ ok true
      → Any (λ x. view.isin_of x ≡ some isin) (view.items s)
  pub entered-isin :
      (security : Security Time) → view.isin_of (view.entered security) ≡ security.isin
  pub inserted :
      (security : Security Time) (s : S)
      → (repo.insert security s).0 ≡ ok tt
      → view.items (repo.insert security s).1 ≡ view.entered security ∷ view.items s
  pub not_inserted :
      (security : Security Time) (s : S) {fault : Fault}
      → (repo.insert security s).0 ≡ err fault
      → view.items (repo.insert security s).1 ≡ view.items s

not-eq-true : (b : Bool) → not b ≡ true → b ≡ false
not-eq-true false h = refl
not-eq-true true h = cc h

not-eq-false : (b : Bool) → not b ≡ false → b ≡ true
not-eq-false true h = refl
not-eq-false false h = cc h

module _ {S Fault Time Item : Type 0} (repo : SecurityRepository S Fault Time)
    (issuers : IssuerRepository S Fault Time) (view : SecurityView S Item Time) where
  -- The underlying security, if any, is answered for in this way.
  abbrev pub Underlying : Option SecurityId → S → Bool → Type 0 → Type 0
  Underlying none s b otherwise = otherwise
  Underlying (some u) s b otherwise = repo.exists u s ≡ ok b

  -- What a registration came to.
  abbrev pub SecurityOutcome :
      Security Time → S → Result (Unit {0}) (RegisterSecurityError Fault) × S → Type 0
  SecurityOutcome x s (ok _, after) =
      (view.items after ≡ view.entered x ∷ view.items s)
      × (issuers.exists x.issuer_id s ≡ ok true)
      × All (λ y. Differ x.isin (view.isin_of y)) (view.items s)
      × Underlying x.underlying_security_id s true Unit
  SecurityOutcome x s (err unknown_issuer, after) =
      (view.items after ≡ view.items s) × (issuers.exists x.issuer_id s ≡ ok false)
  SecurityOutcome x s (err duplicate_isin, after) =
      (view.items after ≡ view.items s) × Any (λ y. Shares x.isin (view.isin_of y)) (view.items s)
  SecurityOutcome x s (err unknown_underlying_security, after) =
      (view.items after ≡ view.items s) × Underlying x.underlying_security_id s false ⊥
  SecurityOutcome x s (err (RegisterSecurityError.storage fault), after) =
      view.items after ≡ view.items s

  underlying_rule :
      (Q : Result (Unit {0}) (RegisterSecurityError Fault) × S → Type 0) (o : Option SecurityId)
      (k : Step S (RegisterSecurityError Fault) (Unit {0})) (s : S)
      → (Underlying o s true Unit → Q (k s))
      → (Underlying o s false ⊥ → Q (err unknown_underlying_security, s))
      → ((f : Fault) → Q (err (RegisterSecurityError.storage f), s))
      → Q ((check_underlying repo issuers o >> k) s)
  unfolding check_underlying
  underlying_rule Q none k s next stop fault = next tt
  underlying_rule Q (some u) k s next stop fault =
      check-rule Q RegisterSecurityError.storage (repo.exists u) not unknown_underlying_security k s
        (λ b found n. next (found ∙ ap ok (not-eq-false b n)))
        (λ b found y. stop (found ∙ ap ok (not-eq-true b y))) fault

  abbrev insert : Security Time → Step S (RegisterSecurityError Fault) (Unit {0})
  insert x = command RegisterSecurityError.storage (repo.insert x)

  abbrev last_steps : Security Time → Step S (RegisterSecurityError Fault) (Unit {0})
  last_steps x = check_underlying repo issuers x.underlying_security_id >> insert x

  last_steps_outcome :
      IsFaithful repo view
      → (x : Security Time) (s : S) → issuers.exists x.issuer_id s ≡ ok true
      → All (λ y. Differ x.isin (view.isin_of y)) (view.items s)
      → SecurityOutcome x s (last_steps x s)
  last_steps_outcome laws x s known free =
      underlying_rule (SecurityOutcome x s) x.underlying_security_id (insert x) s
        (λ u.
          command-rule (SecurityOutcome x s) RegisterSecurityError.storage (repo.insert x) s
            (λ _ worked. (laws.inserted x s worked, known, free, u))
            (λ f failed. laws.not_inserted x s failed))
        (λ u. (refl, u)) (λ f. refl)

  abbrev check_isin : Security Time → Step S (RegisterSecurityError Fault) (Unit {0})
  check_isin x =
      reject_found RegisterSecurityError.storage repo.exists_by_isin x.isin duplicate_isin

  isin_step :
      IsFaithful repo view
      → (x : Security Time) (s : S) → issuers.exists x.issuer_id s ≡ ok true
      → SecurityOutcome x s ((check_isin x >> last_steps x) s)
  isin_step laws x s known =
      elim (reject_found-cases RegisterSecurityError.storage repo.exists_by_isin x.isin
        duplicate_isin view.isin_of (view.items s) (last_steps x) s (λ c. laws.free c s)
        (λ c. laws.taken c s)) [
          | inl (p, free) ↦
              subst (SecurityOutcome x s) (sym p) (last_steps_outcome laws x s known free)
          | inr (inl (p, taken)) ↦ subst (SecurityOutcome x s) (sym p) (refl, taken)
          | inr (inr (f, p)) ↦ subst (SecurityOutcome x s) (sym p) refl
        ]

  -- Where the repository of securities keeps its promises, a registration adds the item of a
  -- security of a known issuer whose ISIN, if it is set, no other item has and whose underlying security, if
  -- any, is known, or changes nothing and reports a fault of the store or which of these
  -- conditions fails.
  pub register_security_outcome :
      IsFaithful repo view
      → (x : Security Time) (s : S) → SecurityOutcome x s (register_security repo issuers x s)
  unfolding register_security
  register_security_outcome laws x s =
      check-rule (SecurityOutcome x s) RegisterSecurityError.storage (issuers.exists x.issuer_id)
        not unknown_issuer (check_isin x >> last_steps x) s
        (λ b found n. isin_step laws x s (found ∙ ap ok (not-eq-false b n)))
        (λ b found y. (refl, found ∙ ap ok (not-eq-true b y))) (λ f. refl)
