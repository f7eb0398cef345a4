-- ===== src/Domain/Issuer/Register.antt =====
-- What the registration of an issuer does to a store, given what its repository promises.
use valqeron.Base.{
  ◌≡◌, ◌≢◌, inl, inr, refl, true, false, Option, some, List, ◌∷◌, Result, ok, err, Result-cases,
  All,
}
use valqeron.Domain.Steps.{
  Step, ◌>>◌, reject_found, command, Pairwise, Differ, Any, Shares, reject_found-cases,
}
use valqeron.Domain.Issuer.Service.{IssuerRepository, RegisterIssuerError, register_issuer}
use valqeron.Domain.Issuer.Types.{Issuer}
use valqeron.Identifiers.Cnpj.{Cnpj}
use valqeron.Identifiers.Lei.{Lei}

-- What a store holds in the place of issuers: its items, the keys of an item, and the item that an
-- issuer is entered as.
pub record IssuerView (S Item Time : Type 0) : Type 0 where
  pub items : S → List Item
  pub cnpj_of : Item → Option Cnpj
  pub lei_of : Item → Option Lei
  pub entered : Issuer Time → Item

-- What a repository promises of the items in its store: the two lookups find what is there, an
-- insertion adds the item of the issuer, which has its keys, and one that fails changes nothing.
pub record IsFaithful {S Fault Time Item : Type 0} (repo : IssuerRepository S Fault Time)
    (view : IssuerView S Item Time) : Type 0 where
  pub cnpj_free :
      (cnpj : Cnpj) (s : S)
      → repo.exists_by_cnpj cnpj s ≡ ok false
      → All (λ i. view.cnpj_of i ≢ some cnpj) (view.items s)
  pub cnpj_taken :
      (cnpj : Cnpj) (s : S)
      → repo.exists_by_cnpj cnpj s ≡ ok true
      → Any (λ i. view.cnpj_of i ≡ some cnpj) (view.items s)
  pub lei_free :
      (lei : Lei) (s : S)
      → repo.exists_by_lei lei s ≡ ok false
      → All (λ i. view.lei_of i ≢ some lei) (view.items s)
  pub lei_taken :
      (lei : Lei) (s : S)
      → repo.exists_by_lei lei s ≡ ok true
      → Any (λ i. view.lei_of i ≡ some lei) (view.items s)
  pub entered-cnpj : (issuer : Issuer Time) → view.cnpj_of (view.entered issuer) ≡ issuer.cnpj
  pub entered-lei : (issuer : Issuer Time) → view.lei_of (view.entered issuer) ≡ issuer.lei
  pub inserted :
      (issuer : Issuer Time) (s : S)
      → (repo.insert issuer s).0 ≡ ok tt
      → view.items (repo.insert issuer s).1 ≡ view.entered issuer ∷ view.items s
  pub not_inserted :
      (issuer : Issuer Time) (s : S) {fault : Fault}
      → (repo.insert issuer s).0 ≡ err fault
      → view.items (repo.insert issuer s).1 ≡ view.items s

module _ {S Time Item : Type 0} (view : IssuerView S Item Time) where
  -- No CNPJ and no LEI is there twice.
  abbrev pub HasUniqueIds : List Item → Type 0
  HasUniqueIds l =
      Pairwise (λ x y. Differ (view.cnpj_of x) (view.cnpj_of y)) l
      × Pairwise (λ x y. Differ (view.lei_of x) (view.lei_of y)) l

  -- What a registration came to, for the items before it and after it.
  abbrev pub RegisterOutcome :
      {Fault : Type 0}
      → Issuer Time
      → List Item
      → Result (Unit {0}) (RegisterIssuerError Fault)
      → List Item
      → Type 0
  RegisterOutcome issuer before (ok _) after =
      (after ≡ view.entered issuer ∷ before)
      × All (λ y. Differ issuer.cnpj (view.cnpj_of y)) before
      × All (λ y. Differ issuer.lei (view.lei_of y)) before
  RegisterOutcome issuer before (err RegisterIssuerError.duplicate_cnpj) after =
      (after ≡ before) × Any (λ y. Shares issuer.cnpj (view.cnpj_of y)) before
  RegisterOutcome issuer before (err RegisterIssuerError.duplicate_lei) after =
      (after ≡ before) × Any (λ y. Shares issuer.lei (view.lei_of y)) before
  RegisterOutcome issuer before (err (RegisterIssuerError.storage fault)) after = after ≡ before

module _ {S Fault Time Item : Type 0} (repo : IssuerRepository S Fault Time)
    (view : IssuerView S Item Time) where
  unique_after :
      IsFaithful repo view
      → (issuer : Issuer Time) (before : List Item)
        (r : Result (Unit {0}) (RegisterIssuerError Fault)) (after : List Item)
      → RegisterOutcome view issuer before r after
      → HasUniqueIds view before
      → HasUniqueIds view after
  unique_after laws issuer before (ok _) after (e, c, l) (uc, ul) =
      rw (e, laws.entered-cnpj issuer, laws.entered-lei issuer) ((c, uc), (l, ul))
  unique_after laws issuer before (err RegisterIssuerError.duplicate_cnpj) after (e, _) u = rw e u
  unique_after laws issuer before (err RegisterIssuerError.duplicate_lei) after (e, _) u = rw e u
  unique_after laws issuer before (err (RegisterIssuerError.storage fault)) after e u = rw e u

  insert_outcome :
      IsFaithful repo view
      → (issuer : Issuer Time) (s : S)
      → All (λ y. Differ issuer.cnpj (view.cnpj_of y)) (view.items s)
      → All (λ y. Differ issuer.lei (view.lei_of y)) (view.items s)
      → RegisterOutcome view issuer
          (view.items s)
          (command RegisterIssuerError.storage (repo.insert issuer) s).0
          (view.items (command RegisterIssuerError.storage (repo.insert issuer) s).1)
  insert_outcome laws issuer s c l = elim (Result-cases (repo.insert issuer s).0) [
    | inl (u, worked) ↦ rw worked (laws.inserted issuer s worked, c, l)
    | inr (f, failed) ↦ rw failed (laws.not_inserted issuer s failed)
  ]

  abbrev check_lei : Issuer Time → Step S (RegisterIssuerError Fault) (Unit {0})
  check_lei issuer =
      reject_found RegisterIssuerError.storage repo.exists_by_lei issuer.lei
        RegisterIssuerError.duplicate_lei

  -- Where the repository keeps its promises, a registration adds the item of an issuer whose CNPJ
  -- and LEI, as far as they are set, are on no other item, or changes nothing and reports a CNPJ or
  -- LEI that is taken or a fault of the store.
  pub register_issuer_outcome :
      IsFaithful repo view
      → (issuer : Issuer Time) (s : S)
      → RegisterOutcome view issuer
          (view.items s)
          (register_issuer repo issuer s).0
          (view.items (register_issuer repo issuer s).1)
  unfolding register_issuer
  register_issuer_outcome laws issuer s =
      elim (reject_found-cases RegisterIssuerError.storage repo.exists_by_cnpj issuer.cnpj
        RegisterIssuerError.duplicate_cnpj view.cnpj_of (view.items s)
        (check_lei issuer >> command RegisterIssuerError.storage (repo.insert issuer)) s
        (λ c. laws.cnpj_free c s) (λ c. laws.cnpj_taken c s)) [
          | inl (next, c) ↦
              rw next
                (elim (reject_found-cases RegisterIssuerError.storage repo.exists_by_lei issuer.lei
                  RegisterIssuerError.duplicate_lei view.lei_of (view.items s)
                  (command RegisterIssuerError.storage (repo.insert issuer)) s
                  (λ c. laws.lei_free c s) (λ c. laws.lei_taken c s)) [
                    | inl (last, l) ↦ rw last (insert_outcome laws issuer s c l)
                    | inr (inl (stop, taken)) ↦ rw stop (refl, taken)
                    | inr (inr (f, stop)) ↦ rw stop refl
                  ])
          | inr (inl (stop, taken)) ↦ rw stop (refl, taken)
          | inr (inr (f, stop)) ↦ rw stop refl
        ]

  -- Where the repository keeps its promises, a registration, whether it succeeds or not, leaves
  -- a store in which no CNPJ and no LEI is on two items if that was so before.
  pub register_issuer-HasUniqueIds :
      IsFaithful repo view
      → (issuer : Issuer Time) (s : S) → HasUniqueIds view (view.items s)
      → HasUniqueIds view (view.items (register_issuer repo issuer s).1)
  register_issuer-HasUniqueIds laws issuer s unique =
      unique_after laws issuer (view.items s) _ _ (register_issuer_outcome laws issuer s) unique
