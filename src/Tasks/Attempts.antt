-- ===== src/Tasks/Attempts.antt =====
-- The life of a task as steps of any order, and how many of them there can be.
use valqeron.Base.{
  ℕ, suc, ◌+◌, ◌-◌, ◌*◌, ◌≤◌, ◌<◌, ◌≡◌, inl, inr, sym, ap, ok, err, Result, arith, u32_max,
  Bool-cases, ltb, ◌==◌, ok-injective, >>=-eq-ok,
}
use valqeron.Text.{Text}
use valqeron.Tasks.Defs.{
  ScheduledBackgroundTask, Pending, Running, Retrying, Success, Failed, Cancelled,
  BackgroundTaskBuilder, TaskAttemptTracker, start, cancel, complete, fail, build, ok_or,
  missing_id, missing_name,
}

-- A task in whatever state it is.
pub data Task (Key : Type 0) : Type 0 where
  is_pending : ScheduledBackgroundTask Key Pending → Task Key
  is_running : ScheduledBackgroundTask Key Running → Task Key
  is_retrying : ScheduledBackgroundTask Key Retrying → Task Key
  is_success : ScheduledBackgroundTask Key Success → Task Key
  is_failed : ScheduledBackgroundTask Key Failed → Task Key
  is_cancelled : ScheduledBackgroundTask Key Cancelled → Task Key

-- One call of an operation.
pub data Step {Key : Type 0} : Task Key → Task Key → Type 0 where
  starts :
      (t : ScheduledBackgroundTask Key Pending) (u : ScheduledBackgroundTask Key Running)
      → u ≡ start t
      → Step (is_pending t) (is_running u)
  restarts :
      (t : ScheduledBackgroundTask Key Retrying) (u : ScheduledBackgroundTask Key Running)
      → u ≡ start t
      → Step (is_retrying t) (is_running u)
  completes :
      (t : ScheduledBackgroundTask Key Running) (u : ScheduledBackgroundTask Key Success)
      (output : Text)
      → u ≡ complete output t
      → Step (is_running t) (is_success u)
  retries :
      (t : ScheduledBackgroundTask Key Running) (u : ScheduledBackgroundTask Key Retrying)
      (error : Text)
      → fail error t ≡ ok u
      → Step (is_running t) (is_retrying u)
  gives_up :
      (t : ScheduledBackgroundTask Key Running) (u : ScheduledBackgroundTask Key Failed)
      (error : Text)
      → fail error t ≡ err u
      → Step (is_running t) (is_failed u)
  cancels_pending :
      (t : ScheduledBackgroundTask Key Pending) (u : ScheduledBackgroundTask Key Cancelled)
      → u ≡ cancel t
      → Step (is_pending t) (is_cancelled u)
  cancels_running :
      (t : ScheduledBackgroundTask Key Running) (u : ScheduledBackgroundTask Key Cancelled)
      → u ≡ cancel t
      → Step (is_running t) (is_cancelled u)
  cancels_retrying :
      (t : ScheduledBackgroundTask Key Retrying) (u : ScheduledBackgroundTask Key Cancelled)
      → u ≡ cancel t
      → Step (is_retrying t) (is_cancelled u)

-- Steps one after another, counted.
pub data Steps {Key : Type 0} : ℕ → Task Key → Task Key → Type 0 where
  stay : (a : Task Key) → Steps 0 a a
  step : (n : ℕ) (a b c : Task Key) → Steps n a b → Step b c → Steps (suc n) a c

-- The attempts of a task in a state: as many as its limit at most, one that is running or more,
-- fewer than the limit before another one, all of them when it has failed.
abbrev pub IsCounted : {Key : Type 0} → Task Key → Type 0
IsCounted (is_pending t) =
    (1 ≤ t.attempts.max_attempts)
    × (t.attempts.max_attempts ≤ u32_max)
    × (t.attempts.current_attempt ≡ 0)
IsCounted (is_running t) =
    (1 ≤ t.attempts.current_attempt)
    × (t.attempts.current_attempt ≤ t.attempts.max_attempts)
    × (t.attempts.max_attempts ≤ u32_max)
IsCounted (is_retrying t) =
    (1 ≤ t.attempts.current_attempt)
    × (t.attempts.current_attempt < t.attempts.max_attempts)
    × (t.attempts.max_attempts ≤ u32_max)
IsCounted (is_success t) =
    (1 ≤ t.attempts.current_attempt) × (t.attempts.current_attempt ≤ t.attempts.max_attempts)
IsCounted (is_failed t) =
    (1 ≤ t.attempts.current_attempt) × (t.attempts.current_attempt ≡ t.attempts.max_attempts)
IsCounted (is_cancelled t) = t.attempts.current_attempt ≤ t.attempts.max_attempts

-- How many steps a task may still take.
abbrev pub steps_left : {Key : Type 0} → Task Key → ℕ
steps_left (is_pending t) = 2 * t.attempts.max_attempts
steps_left (is_running t) = 2 * (t.attempts.max_attempts - t.attempts.current_attempt) + 1
steps_left (is_retrying t) = 2 * (t.attempts.max_attempts - t.attempts.current_attempt)
steps_left _ = 0

err-injective : {A E : Type 0} {a b : E} → ◌≡◌ {A = Result A E} (err a) (err b) → a ≡ b
err-injective h = cc h

module _ {Key : Type 0} where
  start-attempts :
      {State : Type 0} (t : ScheduledBackgroundTask Key State)
      (u : ScheduledBackgroundTask Key Running)
      → u ≡ start t
      → t.attempts.current_attempt < t.attempts.max_attempts
      → t.attempts.max_attempts ≤ u32_max
      → (u.attempts.current_attempt ≡ t.attempts.current_attempt + 1)
        × (u.attempts.max_attempts ≡ t.attempts.max_attempts)
  unfolding start
  start-attempts {State} t u e lt le = (
    ground (arith, ap (λ (x : ScheduledBackgroundTask Key Running). x.attempts.current_attempt) e),
    ap (λ (x : ScheduledBackgroundTask Key Running). x.attempts.max_attempts) e,
  )

  fail-attempts :
      (t : ScheduledBackgroundTask Key Running) (u : ScheduledBackgroundTask Key Retrying)
      (error : Text)
      → fail error t ≡ ok u
      → (u.attempts ≡ t.attempts) × (t.attempts.current_attempt < t.attempts.max_attempts)
  unfolding fail
  fail-attempts t u error e =
      elim (Bool-cases (ltb t.attempts.current_attempt t.attempts.max_attempts)) [
        | inl y ↦ (
          sym (
              ap (λ (x : ScheduledBackgroundTask Key Retrying). x.attempts)
                (ok-injective (rw y at e))),
          ground (arith, y),
        )
        | inr n ↦ absurd (cc (rw n at e))
      ]

  give_up-attempts :
      (t : ScheduledBackgroundTask Key Running) (u : ScheduledBackgroundTask Key Failed)
      (error : Text)
      → fail error t ≡ err u
      → (u.attempts ≡ t.attempts) × (t.attempts.max_attempts ≤ t.attempts.current_attempt)
  unfolding fail
  give_up-attempts t u error e =
      elim (Bool-cases (ltb t.attempts.current_attempt t.attempts.max_attempts)) [
        | inl y ↦ absurd (cc (rw y at e))
        | inr n ↦ (
          sym (
              ap (λ (x : ScheduledBackgroundTask Key Failed). x.attempts)
                (err-injective (rw n at e))),
          ground (arith, n),
        )
      ]

  -- A step keeps the count of attempts right and uses up steps.
  Step-IsCounted :
      (a b : Task Key) → Step a b → IsCounted a → IsCounted b × (steps_left b < steps_left a)
  unfolding complete cancel
  Step-IsCounted _ _ (starts t u e) (one, max, zero_now) =
      let (c, m) = start-attempts t u e (omega arith) max in
      ((omega arith, omega arith, omega arith), omega arith)
  Step-IsCounted _ _ (restarts t u e) (one, lt, max) =
      let (c, m) = start-attempts t u e lt max in
      ((omega arith, omega arith, omega arith), omega arith)
  Step-IsCounted _ _ (completes t u output e) (one, le, max) =
      let same = ap (λ (x : ScheduledBackgroundTask Key Success). x.attempts) e in
      ((rw same one, rw same le), omega arith)
  Step-IsCounted _ _ (retries t u error e) (one, le, max) =
      let (same, lt) = fail-attempts t u error e in
      ((rw same one, rw same lt, rw same max), rw same (omega arith))
  Step-IsCounted _ _ (gives_up t u error e) (one, le, max) =
      let (same, ge) = give_up-attempts t u error e in
      ((rw same one, rw same (omega arith)), omega arith)
  Step-IsCounted _ _ (cancels_pending t u e) (one, max, zero_now) =
      let same = ap (λ (x : ScheduledBackgroundTask Key Cancelled). x.attempts) e in
      (rw same (omega arith), omega arith)
  Step-IsCounted _ _ (cancels_running t u e) (one, le, max) =
      let same = ap (λ (x : ScheduledBackgroundTask Key Cancelled). x.attempts) e in
      (rw same le, omega arith)
  Step-IsCounted _ _ (cancels_retrying t u e) (one, lt, max) =
      let same = ap (λ (x : ScheduledBackgroundTask Key Cancelled). x.attempts) e in
      (rw same (omega arith), omega arith)

  Steps-IsCounted :
      (n : ℕ) (a b : Task Key)
      → Steps n a b
      → IsCounted a
      → IsCounted b × (n + steps_left b ≤ steps_left a)
  Steps-IsCounted _ _ _ (stay a) h = (h, omega arith)
  Steps-IsCounted _ _ _ (step n a b c steps last) h =
      let (hb, le) = Steps-IsCounted n a b steps h in
      let (hc, lt) = Step-IsCounted b c last hb in (hc, omega (arith, le, lt))

  build-attempts :
      (builder : BackgroundTaskBuilder Key) {t : ScheduledBackgroundTask Key Pending}
      → build builder ≡ ok t
      → (1 ≤ builder.max_attempts)
        × (t.attempts ≡ record { max_attempts = builder.max_attempts; current_attempt = 0 })
  unfolding build
  build-attempts builder {t} e = elim (Bool-cases (builder.max_attempts == 0)) [
    | inl z ↦ absurd (cc (rw z at e))
    | inr n ↦
        let (id, _, e') = >>=-eq-ok (ok_or builder.id missing_id) _ (rw n at e) in
        let (name, _, last) = >>=-eq-ok (ok_or builder.name missing_name) _ e' in
        (
          ground (arith, n),
          sym (ap (λ (x : ScheduledBackgroundTask Key Pending). x.attempts) (ok-injective last)),
        )
  ]

  -- A task that is built with a limit that a `u32` holds takes at most twice as many steps as its
  -- limit of attempts, whatever happens to it, and at each point its count is right for its state:
  -- never over the limit, below it where another attempt is to come, at it where it has failed.
  pub Steps-build :
      (builder : BackgroundTaskBuilder Key) {t : ScheduledBackgroundTask Key Pending}
      → build builder ≡ ok t
      → builder.max_attempts ≤ u32_max
      → {n : ℕ} {b : Task Key} → Steps n (is_pending t) b
      → IsCounted b × (n ≤ 2 * builder.max_attempts)
  Steps-build builder {t} e max {n} {b} steps =
      let (one, same) = build-attempts builder e in
      let m = ap (λ (x : TaskAttemptTracker). x.max_attempts) same in
      let c = ap (λ (x : TaskAttemptTracker). x.current_attempt) same in
      let (h, le) =
        Steps-IsCounted n (is_pending t) b steps (omega arith, omega arith, omega arith) in
      (h, omega arith)
