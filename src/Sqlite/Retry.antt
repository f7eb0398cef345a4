-- ===== src/Sqlite/Retry.antt =====
-- What the retried writes of crates/infrastructure/src/sqlite come to.
use valqeron.Base.{
  ℕ, zero, suc, ◌<◌, ◌≡◌, inl, inr, refl, sym, ap, ◌∙◌, subst, Option, none, some, Result, err,
  map_err, Result-cases, arith, ◌⊎◌,
}
use native.Mathlib.Decide.{dec_lt}
use valqeron.Domain.Common.{IsGiven}
use valqeron.Sqlite.Session.{finished, retrying}
use valqeron.Sqlite.Sql.{SqlError, StorageFault, backend, is_busy_or_locked}
use valqeron.Sqlite.Support.{
  Retried, with_busy_retry, with_busy_retry-Settles, with_busy_retry_total, after_calls, IsBusy,
}

finished_eq :
    {A : Type 0} {a : A} (o : Option A) (given : IsGiven o) → o ≡ some a → finished o given ≡ a
finished_eq none given e = absurd given
finished_eq (some b) given e = cc e

order : (a b : ℕ) → (a < b) ⊎ (a ≡ b) ⊎ (b < a)
order a b = elim (dec_lt a b) [
  | yes p ↦ inl p
  | no p ↦ elim (dec_lt b a) [ yes q ↦ inr (inr q) | no q ↦ inr (inl (omega arith)) ]
]

module _ {A S : Type 0} (op : S → Result A SqlError × S) where
  pub retrying_settled :
      (s : S)
      → retrying op s ≡ (
        map_err backend
            (op (
              after_calls is_busy_or_locked op
                (with_busy_retry-Settles is_busy_or_locked op s).calls
                s)).0,
        (op (
            after_calls is_busy_or_locked op
              (with_busy_retry-Settles is_busy_or_locked op s).calls
              s)).1,
      )
  unfolding retrying
  retrying_settled s =
      let h = with_busy_retry-Settles is_busy_or_locked op s in
      let given = with_busy_retry_total is_busy_or_locked op s in
      let e = finished_eq (with_busy_retry is_busy_or_locked op s) given h.outcome in
      ap (λ (r : Retried A SqlError S). (map_err backend r.result, r.store)) e

module _ {A S : Type 0} (op : S → Result A SqlError × S) (P : S → Type 0) where
  after_calls-keeps :
      ((s : S) → P s → P (op s).1)
      → (k : ℕ) (s : S) → P s
      → P (after_calls is_busy_or_locked op k s)
  unfolding after_calls
  after_calls-keeps keeps zero s p = p
  after_calls-keeps keeps (suc k) s p = after_calls-keeps keeps k (op s).1 (keeps s p)

  -- What each call keeps, the calls that are tried again keep.
  pub retrying-keeps : ((s : S) → P s → P (op s).1) → (s : S) → P s → P (retrying op s).1
  retrying-keeps keeps s p =
      let k = (with_busy_retry-Settles is_busy_or_locked op s).calls in
      subst (λ (r : Result A StorageFault × S). P r.1) (sym (retrying_settled op s))
        (keeps (after_calls is_busy_or_locked op k s) (after_calls-keeps keeps k s p))

module _ {A S X : Type 0} (op : S → Result A SqlError × S) (view : S → X) (P : X → Type 0) where
  -- What a call that fails leaves as it was is still so after calls that were busy.
  view-after_calls :
      ((s : S) (e : SqlError) → P (view s) → (op s).0 ≡ err e → view (op s).1 ≡ view s)
      → (k : ℕ) (s : S)
      → ((j : ℕ)
          → j < k
          → IsBusy is_busy_or_locked op (op (after_calls is_busy_or_locked op j s)).0)
      → P (view s)
      → view (after_calls is_busy_or_locked op k s) ≡ view s
  unfolding after_calls
  view-after_calls keeps zero s busy p = refl
  view-after_calls keeps (suc k) s busy p = elim (Result-cases (op s).0) [
    | inl (a, worked) ↦ absurd (subst (IsBusy is_busy_or_locked op) worked (busy 0 (omega arith)))
    | inr (e, failed) ↦
        let same = keeps s e p failed in
        view-after_calls keeps k (op s).1 (λ j lt. busy (suc j) (omega arith))
          (subst P (sym same) p)
        ∙ same
  ]

  -- A retried write is one call of it, in a store that looks like the first one.
  pub retrying_once :
      ((s : S) (e : SqlError) → P (view s) → (op s).0 ≡ err e → view (op s).1 ≡ view s)
      → (s : S) → P (view s)
      → (s' : S) × (view s' ≡ view s) × (retrying op s ≡ (map_err backend (op s').0, (op s').1))
  retrying_once keeps s p =
      let h = with_busy_retry-Settles is_busy_or_locked op s in
      (
        after_calls is_busy_or_locked op h.calls s,
        view-after_calls keeps h.calls s h.busy_before p,
        retrying_settled op s,
      )

module _ {A S : Type 0} (op : S → Result A SqlError × S) where
  -- The retried write is the call at which the database is free, if that is within five calls.
  calls-free :
      (k : ℕ) (s : S)
      → k < 5
      → ((j : ℕ)
          → j < k
          → IsBusy is_busy_or_locked op (op (after_calls is_busy_or_locked op j s)).0)
      → ¬ IsBusy is_busy_or_locked op (op (after_calls is_busy_or_locked op k s)).0
      → (with_busy_retry-Settles is_busy_or_locked op s).calls ≡ k
  calls-free k s lt busy free =
      let h = with_busy_retry-Settles is_busy_or_locked op s in
      elim (order h.calls k) [
        | inl less ↦ absurd (h.settled (omega (arith, less)) (busy h.calls less))
        | inr (inl same) ↦ same
        | inr (inr more) ↦ absurd (free (h.busy_before k more))
      ]

  -- A write gets through once the database is free, if that is within five calls: then the result
  -- is that of the first call that is not refused as busy.
  pub retrying_gets_through :
      (k : ℕ) (s : S)
      → k < 5
      → ((j : ℕ)
          → j < k
          → IsBusy is_busy_or_locked op (op (after_calls is_busy_or_locked op j s)).0)
      → ¬ IsBusy is_busy_or_locked op (op (after_calls is_busy_or_locked op k s)).0
      → retrying op s ≡ (
        map_err backend (op (after_calls is_busy_or_locked op k s)).0,
        (op (after_calls is_busy_or_locked op k s)).1,
      )
  retrying_gets_through k s lt busy free =
      retrying_settled op s
      ∙ ap
          (λ (n : ℕ). (
            map_err backend (op (after_calls is_busy_or_locked op n s)).0,
            (op (after_calls is_busy_or_locked op n s)).1,
          ))
          (calls-free k s lt busy free)
