-- ===== src/Tasks/Defs.antt =====
-- The tasks of crates/core/src/tasks.rs. The state of a task is part of its type, so each operation
-- is there in the states that the source gives it. The two `start`s, on a pending and on a
-- retrying task, and the three `cancel`s have one body each.
use valqeron.Base.{
  ℕ, Option, none, some, ltb, ◌==◌, saturating_add, if◌then◌else◌, Result, ok, err, ◌>>=◌,
}
use valqeron.Text.{Text}
use valqeron.Domain.Names.{NameError, checked_name}

abbrev pub BackgroundTaskName : Type 0
BackgroundTaskName = Text

abbrev pub background_task_name : Text → Result BackgroundTaskName NameError
background_task_name = checked_name 100

pub data Pending : Type 0 where
  pending : Pending

pub data Running : Type 0 where
  running : Running

pub record Success : Type 0 where
  pub output : Text

pub record Failed : Type 0 where
  pub error : Text

pub record Retrying : Type 0 where
  pub last_error : Text

pub data Cancelled : Type 0 where
  cancelled : Cancelled

pub record TaskAttemptTracker : Type 0 where
  pub max_attempts : ℕ
  pub current_attempt : ℕ

-- `Key` stands for the unique identifiers.
pub record ScheduledBackgroundTask (Key State : Type 0) : Type 0 where
  pub id : Key
  pub name : BackgroundTaskName
  pub attempts : TaskAttemptTracker
  pub state : State

module _ {Key State : Type 0} where
  unfoldable pub start : ScheduledBackgroundTask Key State → ScheduledBackgroundTask Key Running
  start task = record {
    id = task.id;
    name = task.name;
    attempts = record (task.attempts) {
      current_attempt = saturating_add task.attempts.current_attempt 1;
    };
    state = running;
  }

  unfoldable pub cancel : ScheduledBackgroundTask Key State → ScheduledBackgroundTask Key Cancelled
  cancel task = record {
    id = task.id;
    name = task.name;
    attempts = task.attempts;
    state = cancelled;
  }

module _ {Key : Type 0} where
  unfoldable pub complete :
      Text → ScheduledBackgroundTask Key Running → ScheduledBackgroundTask Key Success
  complete output task = record {
    id = task.id;
    name = task.name;
    attempts = task.attempts;
    state = record { output = output };
  }

  unfoldable pub fail :
      Text
      → ScheduledBackgroundTask Key Running
      → Result (ScheduledBackgroundTask Key Retrying) (ScheduledBackgroundTask Key Failed)
  fail error task =
      if ltb task.attempts.current_attempt task.attempts.max_attempts
      then ok (record {
        id = task.id;
        name = task.name;
        attempts = task.attempts;
        state = record { last_error = error };
      })
      else err (record {
        id = task.id;
        name = task.name;
        attempts = task.attempts;
        state = record { error = error };
      })

pub data TaskBuilderError : Type 0 where
  zero_max_attempts missing_id missing_name : TaskBuilderError

pub record BackgroundTaskBuilder (Key : Type 0) : Type 0 where
  pub id : Option Key
  pub name : Option BackgroundTaskName
  pub max_attempts : ℕ

-- `Option::ok_or`
abbrev pub ok_or : {A E : Type 0} → Option A → E → Result A E
ok_or (some a) e = ok a
ok_or none e = err e

module _ {Key : Type 0} where
  abbrev pub default : BackgroundTaskBuilder Key
  default = record { id = none; name = none; max_attempts = 1 }

  unfoldable pub set_id : Key → BackgroundTaskBuilder Key → BackgroundTaskBuilder Key
  set_id value builder = record builder { id = some value }

  unfoldable pub set_name :
      BackgroundTaskName → BackgroundTaskBuilder Key → BackgroundTaskBuilder Key
  set_name value builder = record builder { name = some value }

  unfoldable pub set_max_attempts : ℕ → BackgroundTaskBuilder Key → BackgroundTaskBuilder Key
  set_max_attempts value builder = record builder { max_attempts = value }

  unfoldable pub build :
      BackgroundTaskBuilder Key → Result (ScheduledBackgroundTask Key Pending) TaskBuilderError
  build builder = if builder.max_attempts == 0 then err zero_max_attempts else (do
    id ← ok_or builder.id missing_id
    name ← ok_or builder.name missing_name
    ok (record {
      id = id;
      name = name;
      attempts = record { max_attempts = builder.max_attempts; current_attempt = 0 };
      state = pending;
    }))
