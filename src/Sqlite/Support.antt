-- ===== src/Sqlite/Support.antt =====
-- crates/infrastructure/src/sqlite/support.rs: writes that are tried again while the database is
-- busy. The write, on a store, is an argument, and so is the test of its errors, which are those of
-- rusqlite. The waits between the calls, in milliseconds, are a list.
use valqeron.Base.{
  ℕ, zero, suc, ◌+◌, ◌*◌, ◌<◌, ◌≡◌, inl, inr, refl, sym, ap, ◌∙◌, subst, Bool, true, false, ◌&&◌,
  List, [], ◌∷◌, Option, none, some, ltb, saturating_add, Result, ok, err, ◌>>=◌, Result-cases,
  Bool-cases, arith, if◌then◌else◌,
}
use valqeron.Domain.Common.{WriteOutcome, IsGiven}

-- `BUSY_MAX_ATTEMPTS`
abbrev pub busy_max_attempts : ℕ
busy_max_attempts = 5

-- `BUSY_BACKOFF_BASE`
abbrev pub busy_backoff_base : ℕ
busy_backoff_base = 10

pub record Retried (T E S : Type 0) : Type 0 where
  pub result : Result T E
  pub store : S
  pub waits : List ℕ

abbrev pub after_wait : {T E S : Type 0} → ℕ → Option (Retried T E S) → Option (Retried T E S)
after_wait wait none = none
after_wait wait (some r) = some (record r { waits = wait ∷ r.waits })

module _ {T E S : Type 0} (is_busy_or_locked : E → Bool) (op : S → Result T E × S) where
  -- The match on one call, and then the rest of the loop.
  unfoldable pub after_call :
      (S → Option (Retried T E S)) → ℕ → Result T E → S → Option (Retried T E S)
  after_call again attempt (ok value) s = some (record { result = ok value; store = s; waits = [] })
  after_call again attempt (err e) s =
      if ltb (saturating_add attempt 1) busy_max_attempts && is_busy_or_locked e
      then after_wait (busy_backoff_base * saturating_add attempt 1) (again s)
      else some (record { result = err e; store = s; waits = [] })

  -- The loop, as many rounds as the first argument says at most.
  unfoldable pub busy_loop : ℕ → ℕ → S → Option (Retried T E S)
  busy_loop zero attempt s = none
  busy_loop (suc fuel) attempt s =
      after_call (busy_loop fuel (saturating_add attempt 1)) attempt (op s).0 (op s).1

  -- Five rounds are enough.
  unfoldable pub with_busy_retry : S → Option (Retried T E S)
  with_busy_retry = busy_loop busy_max_attempts 0

  -- The store after some calls.
  unfoldable pub after_calls : ℕ → S → S
  after_calls zero s = s
  after_calls (suc k) s = after_calls k (op s).1

  abbrev pub IsBusy : Result T E → Type 0
  IsBusy (ok value) = ⊥
  IsBusy (err e) = is_busy_or_locked e ≡ true

-- The waits before the next calls, some calls in.
pub waits_from : ℕ → ℕ → List ℕ
waits_from attempt zero = []
waits_from attempt (suc k) = (10 * (attempt + 1)) ∷ waits_from (attempt + 1) k

module _ {T E S : Type 0} (is_busy_or_locked : E → Bool) (op : S → Result T E × S) where
  -- The calls before the last one were busy, the last one was not unless it is the fifth, and its
  -- result is the result.
  pub record Settles (attempt : ℕ) (s : S) (bound : ℕ) (r : Option (Retried T E S)) : Type 0 where
    pub calls : ℕ
    pub in_bound : calls < bound
    pub busy_before :
        (j : ℕ)
        → j < calls
        → IsBusy is_busy_or_locked op (op (after_calls is_busy_or_locked op j s)).0
    pub settled :
        calls + attempt < 4
        → ¬ IsBusy is_busy_or_locked op (op (after_calls is_busy_or_locked op calls s)).0
    pub outcome :
        r
        ≡ some (record {
          result = (op (after_calls is_busy_or_locked op calls s)).0;
          store = (op (after_calls is_busy_or_locked op calls s)).1;
          waits = waits_from attempt calls;
        })

  at_once :
      (attempt : ℕ) (s : S) (fuel : ℕ)
      → (attempt < 4 → ¬ IsBusy is_busy_or_locked op (op s).0)
      → busy_loop is_busy_or_locked op (suc fuel) attempt s
        ≡ some (record { result = (op s).0; store = (op s).1; waits = [] })
      → Settles attempt s (suc fuel) (busy_loop is_busy_or_locked op (suc fuel) attempt s)
  unfolding after_calls waits_from
  at_once attempt s fuel quiet e = record {
    calls = 0;
    in_bound = omega arith;
    busy_before = λ j lt. absurd (omega arith);
    settled = λ lt. quiet (omega arith);
    outcome = e;
  }

  later :
      (attempt : ℕ) (s : S) (fuel : ℕ) {r : Option (Retried T E S)}
      → IsBusy is_busy_or_locked op (op s).0
      → Settles (attempt + 1) (op s).1 fuel r
      → Settles attempt s (suc fuel) (after_wait (10 * (attempt + 1)) r)
  unfolding after_calls waits_from
  later attempt s fuel {r} busy rest = record {
    calls = suc rest.calls;
    in_bound = omega (arith, rest.in_bound);
    busy_before = before;
    settled = λ lt. rest.settled (omega arith);
    outcome = rw rest.outcome refl;
  }
    where
      before :
          (j : ℕ)
          → j < suc rest.calls
          → IsBusy is_busy_or_locked op (op (after_calls is_busy_or_locked op j s)).0
      before zero lt = busy
      before (suc j) lt = rest.busy_before j (omega arith)

  -- What one busy call comes to.
  after_call-again :
      (again : S → Option (Retried T E S)) (attempt : ℕ) (x : E) (s : S)
      → attempt < 4
      → is_busy_or_locked x ≡ true
      → after_call is_busy_or_locked op again attempt (err x) s
        ≡ after_wait (10 * (attempt + 1)) (again s)
  unfolding after_call
  after_call-again again attempt x s lt busy =
      let n : saturating_add attempt 1 ≡ attempt + 1 = ground arith in
      let more : (ltb (saturating_add attempt 1) busy_max_attempts && is_busy_or_locked x) ≡ true =
        ground arith in
      ap
        (λ (b : Bool).
          if b
          then after_wait (busy_backoff_base * saturating_add attempt 1) (again s)
          else some (record { result = err x; store = s; waits = [] }))
        more
      ∙ ap (λ (m : ℕ). after_wait (10 * m) (again s)) n

  -- What a call of another error comes to, or the last call.
  after_call-stop :
      (again : S → Option (Retried T E S)) (attempt : ℕ) (x : E) (s : S)
      → (ltb (saturating_add attempt 1) busy_max_attempts && is_busy_or_locked x) ≡ false
      → after_call is_busy_or_locked op again attempt (err x) s
        ≡ some (record { result = err x; store = s; waits = [] })
  unfolding after_call
  after_call-stop again attempt x s stop =
      ap
        (λ (b : Bool).
          if b
          then after_wait (busy_backoff_base * saturating_add attempt 1) (again s)
          else some (record { result = err x; store = s; waits = [] }))
        stop

  round_lem :
      (fuel attempt : ℕ) (s : S)
      → (attempt < 4
          → Settles
              (attempt + 1)
              (op s).1
              fuel
              (busy_loop is_busy_or_locked op fuel (attempt + 1) (op s).1))
      → Settles attempt s (suc fuel) (busy_loop is_busy_or_locked op (suc fuel) attempt s)
  unfolding busy_loop
  round_lem fuel attempt s rest = elim (Result-cases (op s).0) [
    | inl (value, e) ↦
        at_once attempt s fuel (λ _ busy. subst (IsBusy is_busy_or_locked op) e busy)
          (rw e (unfold after_call in refl))
    | inr (x, e) ↦
        elim (Bool-cases
          (ltb (saturating_add attempt 1) busy_max_attempts && is_busy_or_locked x)) [
            | inr stop ↦
                at_once attempt s fuel
                  (λ lt busy. let b = subst (IsBusy is_busy_or_locked op) e busy in ground arith)
                  (rw e (
                    after_call-stop (busy_loop is_busy_or_locked op fuel (saturating_add attempt 1))
                      attempt x (op s).1 stop))
            | inl more ↦
                let lt : attempt < 4 = ground arith in
                let busy : is_busy_or_locked x ≡ true = ground arith in
                let n : saturating_add attempt 1 ≡ attempt + 1 = ground arith in
                let next = busy_loop is_busy_or_locked op fuel (saturating_add attempt 1) in
                let path =
                  ap (λ (r : Result T E). after_call is_busy_or_locked op next attempt r (op s).1) e
                  ∙ after_call-again next attempt x (op s).1 lt busy
                  ∙ ap
                      (λ (m : ℕ).
                        after_wait (10 * (attempt + 1))
                          (busy_loop is_busy_or_locked op fuel m (op s).1))
                      n in
                subst (Settles attempt s (suc fuel)) (sym path) (
                  later attempt s fuel (subst (IsBusy is_busy_or_locked op) (sym e) busy) (rest lt))
          ]
  ]

  busy_loop_lem :
      (fuel attempt : ℕ) (s : S)
      → suc fuel + attempt ≡ 5
      → Settles attempt s (suc fuel) (busy_loop is_busy_or_locked op (suc fuel) attempt s)
  busy_loop_lem zero attempt s total = round_lem zero attempt s (λ lt. absurd (omega arith))
  busy_loop_lem (suc fuel) attempt s total =
      round_lem (suc fuel) attempt s (λ lt. busy_loop_lem fuel (attempt + 1) (op s).1 (omega arith))

  -- A write is called up to five times: as long as the database is busy it is called again, after
  -- waits of 10, 20, 30 and 40 milliseconds, and what the last call gave, in the store that it
  -- left, is the result.
  pub with_busy_retry-Settles : (s : S) → Settles 0 s 5 (with_busy_retry is_busy_or_locked op s)
  unfolding with_busy_retry
  with_busy_retry-Settles s = busy_loop_lem 4 0 s (omega arith)

  -- The five rounds are enough.
  pub with_busy_retry_total : (s : S) → IsGiven (with_busy_retry is_busy_or_locked op s)
  with_busy_retry_total s = subst IsGiven (sym (with_busy_retry-Settles s).outcome) tt

-- What a guarded write that changed no row came to, from the version that the row now has.
unfoldable pub write_outcome : {E : Type 0} → Result (Option ℕ) E → ℕ → Result WriteOutcome E
write_outcome actual expected_version = do
  found ← actual
  ok (elim found [
    | some version ↦ WriteOutcome.version_mismatch expected_version version
    | none ↦ WriteOutcome.missing
  ])
