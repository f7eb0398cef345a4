-- ===== src/Sqlite/Issuers/Hydration/Grouping.antt =====
-- What the two loops of `hydrate_rows` come to.
use valqeron.Base.{
  ℕ, ◌≡◌, ◌≢◌, inl, inr, refl, sym, ap, ◌∙◌, ◌==◌, List, [], ◌∷◌, ◌++◌, map, All, if◌then◌else◌,
  Bool-cases, arith,
}
use mathlib.Core.List.{append_assoc, append-nil}
use valqeron.Domain.Security.Types.{Security}
use valqeron.Domain.Steps.{Pairwise}
use valqeron.Sqlite.Issuers.Hydration.{
  Groups, push_to, group_rows, removed, without, attach, hydrate_rows,
}
use valqeron.Sqlite.Issuers.Rows.{IssuerRow, reconstitute_with}
use valqeron.Sqlite.Securities.Rows.{SecurityRow}
use valqeron.Sqlite.Sql.{where_}
use valqeron.Sqlite.Table.Keeping.{All-both}

All-every : {A : Type 0} {P : A → Type 0} (xs : List A) → ((x : A) → P x) → All P xs
All-every [] f = tt
All-every (x ∷ xs) f = (f x, All-every xs f)

module _ {Time : Type 0} where
  -- The securities of an issuer among some rows, in their order.
  abbrev pub owned : ℕ → List (SecurityRow Time) → List (Security Time)
  owned id rows = map (λ r. r.inner.content) (where_ (λ r. r.inner.content.issuer_id == id) rows)

  removed-push_to :
      (key k : ℕ) (x : Security Time) (grouped : Groups Time)
      → removed key (push_to k x grouped)
        ≡ (if k == key then removed key grouped ++ (x ∷ []) else removed key grouped)
  unfolding removed push_to
  removed-push_to key k x [] = refl
  removed-push_to key k x ((j, group) ∷ grouped) =
      let rest = removed-push_to key k x grouped in ground (arith, rest)

  removed-group_rows :
      (key : ℕ) (grouped : Groups Time) (rows : List (SecurityRow Time))
      → removed key (group_rows grouped rows) ≡ removed key grouped ++ owned key rows
  unfolding group_rows
  removed-group_rows key grouped [] = sym (append-nil (removed key grouped))
  removed-group_rows key grouped (row ∷ rows) =
      let security = row.inner.content in
      let rest = removed-group_rows key (push_to security.issuer_id security grouped) rows in
      let push = removed-push_to key security.issuer_id security grouped in
      elim (Bool-cases (security.issuer_id == key)) [
        | inl y ↦
            rest
            ∙ ap (λ l. l ++ owned key rows) (rw y at push)
            ∙ append_assoc (removed key grouped) (security ∷ []) (owned key rows)
            ∙ ap (λ l. removed key grouped ++ l) (rw y refl)
        | inr n ↦
            rest
            ∙ ap (λ l. l ++ owned key rows) (rw n at push)
            ∙ ap (λ l. removed key grouped ++ l) (rw n refl)
      ]

  removed-without :
      (key k : ℕ) (grouped : Groups Time)
      → k ≢ key
      → removed key (without k grouped) ≡ removed key grouped
  unfolding removed without
  removed-without key k [] ne = refl
  removed-without key k ((j, group) ∷ grouped) ne =
      let rest = removed-without key k grouped ne in ground (arith, rest)

  -- Where ids are distinct, what is taken out for one issuer is not missed by another.
  attach_lem :
      (grouped : Groups Time) (rows : List (IssuerRow Time)) (f : ℕ → List (Security Time))
      → Pairwise (λ x y. x.inner.content.id ≢ y.inner.content.id) rows
      → All (λ row. removed row.inner.content.id grouped ≡ f row.inner.content.id) rows
      → attach grouped rows ≡ map (λ row. reconstitute_with row.inner (f row.inner.content.id)) rows
  unfolding attach
  attach_lem grouped [] f d h = refl
  attach_lem grouped (row ∷ rows) f d h =
      let id = row.inner.content.id in
      let kept =
        All-both rows
          (λ x (ne : id ≢ x.inner.content.id) e.
            removed-without x.inner.content.id id grouped ne ∙ e)
          d.0 h.1 in
      ap (λ l. reconstitute_with row.inner l ∷ attach (without id grouped) rows) h.0
      ∙ ap (◌∷◌ (reconstitute_with row.inner (f id)))
          (attach_lem (without id grouped) rows f d.1 kept)

  -- Where the issuers that were read have distinct ids, each gets its own securities among those
  -- that were read, in their order, and the securities of others are left out.
  pub hydrate_rows_lem :
      (rows : List (IssuerRow Time)) (securities : List (SecurityRow Time))
      → Pairwise (λ x y. x.inner.content.id ≢ y.inner.content.id) rows
      → hydrate_rows rows securities
        ≡ map (λ row. reconstitute_with row.inner (owned row.inner.content.id securities)) rows
  unfolding hydrate_rows removed
  hydrate_rows_lem rows securities d =
      attach_lem (group_rows [] securities) rows (λ id. owned id securities) d
        (All-every rows (λ row. removed-group_rows row.inner.content.id [] securities))
