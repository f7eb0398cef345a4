-- ===== src/Examples/Systems.antt =====
-- The lifecycle, a task and a retried write at concrete inputs.
use valqeron.Base.{
  ℕ, zero, suc, ◌≡◌, ◌↔◌, List, ◌≤◌, ◌*◌, refl, Bool, true, [], ◌∷◌, some, ok, err, Result, arith,
}
use valqeron.Text.{codes}
use valqeron.Engine.Lifecycle.{
  LifecycleState, starting, ready, stopping, failed, notify_ready, notify_stopping, run,
  ready_count, stopping_count, run-notices, IsHistory, run-IsHistory_iff,
}
use valqeron.Sqlite.Support.{Settles, with_busy_retry, with_busy_retry-Settles}
use valqeron.Tasks
use valqeron.Tasks.Attempts.{
  is_pending, is_running, is_retrying, Steps, stay, step, starts, retries, IsCounted, Steps-build,
}

run-notices_example :
    (ready_count (run (ready ∷ ready ∷ stopping ∷ failed ∷ []) starting).sent ≤ 1)
    × (stopping_count (run (ready ∷ ready ∷ stopping ∷ failed ∷ []) starting).sent
        ≤ ready_count (run (ready ∷ ready ∷ stopping ∷ failed ∷ []) starting).sent)
run-notices_example = run-notices (ready ∷ ready ∷ stopping ∷ failed ∷ [])

run-IsHistory_iff_example :
    ((calls : List LifecycleState) × (run calls starting
        ≡ record { state = failed; sent = notify_ready ∷ notify_stopping ∷ [] }))
    ↔ IsHistory failed (notify_ready ∷ notify_stopping ∷ [])
run-IsHistory_iff_example = run-IsHistory_iff failed (notify_ready ∷ notify_stopping ∷ [])

abbrev builder : Tasks.BackgroundTaskBuilder ℕ
builder = record { id = some 7; name = some (codes "import"); max_attempts = 3 }

abbrev task : Tasks.ScheduledBackgroundTask ℕ Tasks.Pending
task = record {
  id = 7;
  name = codes "import";
  attempts = record { max_attempts = 3; current_attempt = 0 };
  state = Tasks.pending;
}

built : Tasks.build builder ≡ ok task
unfolding Tasks.build
built = refl

abbrev tried : Tasks.ScheduledBackgroundTask ℕ Tasks.Retrying
tried = record {
  id = 7;
  name = codes "import";
  attempts = record { max_attempts = 3; current_attempt = 1 };
  state = record { last_error = codes "timeout" };
}

Steps-retried : Steps 2 (is_pending task) (is_retrying tried)
unfolding Tasks.start Tasks.fail
Steps-retried =
    step 1 (is_pending task) (is_running (Tasks.start task)) (is_retrying tried)
      (step 0 (is_pending task) (is_pending task) (is_running (Tasks.start task))
        (stay (is_pending task)) (starts task (Tasks.start task) refl))
      (retries (Tasks.start task) tried (codes "timeout") refl)

Steps-build_example : IsCounted (is_retrying tried) × (2 ≤ 2 * 3)
Steps-build_example = Steps-build builder built (omega arith) Steps-retried

-- A write that is busy as often as the store says.
abbrev write : ℕ → Result ℕ Bool × ℕ
write zero = (ok 1, 0)
write (suc n) = (err true, n)

with_busy_retry-Settles_example : Settles (λ b. b) write 0 2 5 (with_busy_retry (λ b. b) write 2)
with_busy_retry-Settles_example = with_busy_retry-Settles (λ b. b) write 2
