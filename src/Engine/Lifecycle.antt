-- ===== src/Engine/Lifecycle.antt =====
-- crates/engine/src/lifecycle.rs: the state of the engine, which only moves along a table. The
-- channel that holds it changes it under a lock, so transitions are a sequence; the notifications
-- to the service manager are a list.
use mathlib.Core.List.{append-nil, append_assoc}
use valqeron.Base.{
  ℕ, ◌+◌, ◌≤◌, ◌≡◌, ◌⊎◌, ◌↔◌, inl, inr, refl, sym, subst, Bool, true, false, List, [], ◌∷◌, ◌++◌,
  if◌then◌else◌, arith, Result, ok, err,
}
use valqeron.Text.{Text, codes}

pub data LifecycleState : Type 0 where
  starting ready stopping stopped failed : LifecycleState

abbrev pub as_str : LifecycleState → Text
as_str starting = codes "starting"
as_str ready = codes "ready"
as_str stopping = codes "stopping"
as_str stopped = codes "stopped"
as_str failed = codes "failed"

unfoldable pub is_valid_transition : LifecycleState → LifecycleState → Bool
is_valid_transition starting ready = true
is_valid_transition starting failed = true
is_valid_transition ready stopping = true
is_valid_transition stopping stopped = true
is_valid_transition stopping failed = true
is_valid_transition _ _ = false

pub record InvalidTransition : Type 0 where
  pub from : LifecycleState
  pub to : LifecycleState

pub data Notice : Type 0 where
  notify_ready notify_stopping : Notice

-- The match at the end of `transition`.
abbrev pub notices : LifecycleState → List Notice
notices ready = notify_ready ∷ []
notices stopping = notify_stopping ∷ []
notices starting = []
notices stopped = []
notices failed = []

-- What a call leaves: its result, the state and what it sent.
pub record Transitioned : Type 0 where
  pub result : Result LifecycleState InvalidTransition
  pub state : LifecycleState
  pub sent : List Notice

unfoldable pub transition : LifecycleState → LifecycleState → Transitioned
transition to from =
    if is_valid_transition from to
    then record { result = ok from; state = to; sent = notices to }
    else record { result = err (record { from = from; to = to }); state = from; sent = [] }

-- A sequence of calls, whether they succeed or not: the state that is left and all that was sent.
pub record Run : Type 0 where
  pub state : LifecycleState
  pub sent : List Notice

pub run : List LifecycleState → LifecycleState → Run
run [] from = record { state = from; sent = [] }
run (to ∷ rest) from =
    let t = transition to from in
    let later = run rest t.state in record { state = later.state; sent = t.sent ++ later.sent }

pub ready_count : List Notice → ℕ
ready_count [] = 0
ready_count (notify_ready ∷ l) = 1 + ready_count l
ready_count (notify_stopping ∷ l) = ready_count l

pub stopping_count : List Notice → ℕ
stopping_count [] = 0
stopping_count (notify_ready ∷ l) = stopping_count l
stopping_count (notify_stopping ∷ l) = 1 + stopping_count l

-- How often a state may still become ready, and how often it may stop without.
abbrev boots_left : LifecycleState → ℕ
boots_left starting = 1
boots_left ready = 0
boots_left stopping = 0
boots_left stopped = 0
boots_left failed = 0

abbrev running : LifecycleState → ℕ
running starting = 0
running ready = 1
running stopping = 0
running stopped = 0
running failed = 0

ready_count-append : (k l : List Notice) → ready_count (k ++ l) ≡ ready_count k + ready_count l
unfolding ready_count
ready_count-append [] l = omega arith
ready_count-append (notify_ready ∷ k) l = omega (arith, ready_count-append k l)
ready_count-append (notify_stopping ∷ k) l = ready_count-append k l

stopping_count-append :
    (k l : List Notice) → stopping_count (k ++ l) ≡ stopping_count k + stopping_count l
unfolding stopping_count
stopping_count-append [] l = omega arith
stopping_count-append (notify_ready ∷ k) l = stopping_count-append k l
stopping_count-append (notify_stopping ∷ k) l = omega (arith, stopping_count-append k l)

-- One call uses up what it sends.
transition_budget :
    (to from : LifecycleState)
    → (ready_count (transition to from).sent + boots_left (transition to from).state
        ≤ boots_left from)
      × (stopping_count (transition to from).sent + running (transition to from).state
          ≤ running from + ready_count (transition to from).sent)
unfolding transition is_valid_transition ready_count stopping_count
transition_budget starting starting = (omega arith, omega arith)
transition_budget ready starting = (omega arith, omega arith)
transition_budget stopping starting = (omega arith, omega arith)
transition_budget stopped starting = (omega arith, omega arith)
transition_budget failed starting = (omega arith, omega arith)
transition_budget starting ready = (omega arith, omega arith)
transition_budget ready ready = (omega arith, omega arith)
transition_budget stopping ready = (omega arith, omega arith)
transition_budget stopped ready = (omega arith, omega arith)
transition_budget failed ready = (omega arith, omega arith)
transition_budget starting stopping = (omega arith, omega arith)
transition_budget ready stopping = (omega arith, omega arith)
transition_budget stopping stopping = (omega arith, omega arith)
transition_budget stopped stopping = (omega arith, omega arith)
transition_budget failed stopping = (omega arith, omega arith)
transition_budget starting stopped = (omega arith, omega arith)
transition_budget ready stopped = (omega arith, omega arith)
transition_budget stopping stopped = (omega arith, omega arith)
transition_budget stopped stopped = (omega arith, omega arith)
transition_budget failed stopped = (omega arith, omega arith)
transition_budget starting failed = (omega arith, omega arith)
transition_budget ready failed = (omega arith, omega arith)
transition_budget stopping failed = (omega arith, omega arith)
transition_budget stopped failed = (omega arith, omega arith)
transition_budget failed failed = (omega arith, omega arith)

run_budget :
    (calls : List LifecycleState) (from : LifecycleState)
    → (ready_count (run calls from).sent ≤ boots_left from)
      × (stopping_count (run calls from).sent ≤ running from + ready_count (run calls from).sent)
unfolding run ready_count stopping_count
run_budget [] from = (omega arith, omega arith)
run_budget (to ∷ rest) from =
    let t = transition to from in
    let (b, s) = transition_budget to from in
    let (b', s') = run_budget rest (transition to from).state in
    let r =
      ready_count-append (transition to from).sent (run rest (transition to from).state).sent in
    let p =
      stopping_count-append (transition to from).sent (run rest (transition to from).state).sent in
    (omega (arith, b, b', r), omega (arith, s, s', r, p))

-- Whatever transitions are tried from the start, in whatever order, readiness is announced at most
-- once, and stopping at most as often as readiness.
pub run-notices :
    (calls : List LifecycleState)
    → (ready_count (run calls starting).sent ≤ 1)
      × (stopping_count (run calls starting).sent ≤ ready_count (run calls starting).sent)
run-notices calls = let (b, s) = run_budget calls starting in (b, omega (arith, s))

-- What has been sent when a state is reached: nothing before readiness, then that, and stopping from
-- then on; an engine that failed had either not been ready or begun to stop.
abbrev pub IsHistory : LifecycleState → List Notice → Type 0
IsHistory starting sent = sent ≡ []
IsHistory ready sent = sent ≡ notify_ready ∷ []
IsHistory stopping sent = sent ≡ notify_ready ∷ notify_stopping ∷ []
IsHistory stopped sent = sent ≡ notify_ready ∷ notify_stopping ∷ []
IsHistory failed sent = (sent ≡ []) ⊎ (sent ≡ notify_ready ∷ notify_stopping ∷ [])

transition-IsHistory :
    (to from : LifecycleState) (l : List Notice)
    → IsHistory from l
    → IsHistory (transition to from).state (l ++ (transition to from).sent)
unfolding transition is_valid_transition
transition-IsHistory starting starting l h = rw (append-nil l) h
transition-IsHistory ready starting l h = rw h refl
transition-IsHistory stopping starting l h = rw (append-nil l) h
transition-IsHistory stopped starting l h = rw (append-nil l) h
transition-IsHistory failed starting l h = inl (rw h refl)
transition-IsHistory starting ready l h = rw (append-nil l) h
transition-IsHistory ready ready l h = rw (append-nil l) h
transition-IsHistory stopping ready l h = rw h refl
transition-IsHistory stopped ready l h = rw (append-nil l) h
transition-IsHistory failed ready l h = rw (append-nil l) h
transition-IsHistory starting stopping l h = rw (append-nil l) h
transition-IsHistory ready stopping l h = rw (append-nil l) h
transition-IsHistory stopping stopping l h = rw (append-nil l) h
transition-IsHistory stopped stopping l h = rw h refl
transition-IsHistory failed stopping l h = inr (rw h refl)
transition-IsHistory starting stopped l h = rw (append-nil l) h
transition-IsHistory ready stopped l h = rw (append-nil l) h
transition-IsHistory stopping stopped l h = rw (append-nil l) h
transition-IsHistory stopped stopped l h = rw (append-nil l) h
transition-IsHistory failed stopped l h = rw (append-nil l) h
transition-IsHistory starting failed l h = rw (append-nil l) h
transition-IsHistory ready failed l h = rw (append-nil l) h
transition-IsHistory stopping failed l h = rw (append-nil l) h
transition-IsHistory stopped failed l h = rw (append-nil l) h
transition-IsHistory failed failed l h = rw (append-nil l) h

run-IsHistory :
    (calls : List LifecycleState) (from : LifecycleState) (l : List Notice)
    → IsHistory from l
    → IsHistory (run calls from).state (l ++ (run calls from).sent)
unfolding run
run-IsHistory [] from l h = rw (append-nil l) h
run-IsHistory (to ∷ rest) from l h =
    let t = transition to from in
    rw (sym (append_assoc l t.sent (run rest t.state).sent))
      (run-IsHistory rest t.state (l ++ t.sent) (transition-IsHistory to from l h))

reached :
    (state : LifecycleState) (sent : List Notice)
    → IsHistory state sent
    → (calls : List LifecycleState) × (run calls starting ≡ record { state = state; sent = sent })
unfolding run transition is_valid_transition
reached starting sent h = ([], rw h refl)
reached ready sent h = (ready ∷ [], rw h refl)
reached stopping sent h = (ready ∷ stopping ∷ [], rw h refl)
reached stopped sent h = (ready ∷ stopping ∷ stopped ∷ [], rw h refl)
reached failed sent (inl h) = (failed ∷ [], rw h refl)
reached failed sent (inr h) = (ready ∷ stopping ∷ failed ∷ [], rw h refl)

-- From the start a state is reached, with these notices sent, exactly if they are its history: none
-- for a start, readiness when ready, readiness and then stopping when stopping or stopped, and either
-- none or both when failed.
pub run-IsHistory_iff :
    (state : LifecycleState) (sent : List Notice)
    → ((calls : List LifecycleState) × (run calls starting ≡ record { state = state; sent = sent }))
      ↔ IsHistory state sent
run-IsHistory_iff state sent = (
  λ (calls, e).
      subst (λ (r : Run). IsHistory r.state r.sent) e (run-IsHistory calls starting [] refl),
  reached state sent,
)
