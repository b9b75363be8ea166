-- ===== src/Sql.antt =====
-- sql/steda.sql, create_queue_tables: the tables of one queue. A UUID is a number, a timestamp its
-- microseconds. A table is a function from its primary key, so that an UPDATE by key, or of the
-- rows of one task, is one on the function.
pub mod Attempts
pub mod Checkpoints
pub mod Spawns
pub mod Supervision
pub mod Claims
pub mod Calls
pub mod Consistency
pub mod Changes
pub mod History
pub mod Fencing
use steda.Prelude.{ℕ, ◌+◌, ◌*◌, Bool, true, false, Option, none, some, ◌==◌, leb, if◌then◌else◌}
use steda.Text.{Str, str_eq}
use steda.Json.{Json}
use steda.Types.{RetryStrategy, TaskState}

-- A cancellation policy, its limits in seconds.
pub record Limits : Type 0 where
  pub max_delay : Option ℕ
  pub max_duration : Option ℕ

pub record TaskRow : Type 0 where
  pub name : Str
  pub params : Json
  pub headers : Option Json
  pub retry_strategy : RetryStrategy
  pub initial_max_attempts : ℕ
  pub max_attempts : ℕ
  pub cancellation : Option Limits
  pub enqueue_at : ℕ
  pub first_started_at : Option ℕ
  pub state : TaskState
  pub attempts : ℕ
  pub last_attempt_run : ℕ
  pub cancelled_at : Option ℕ

-- The arguments of a spawn. The attempts are a positive integer.
pub record Request : Type 0 where
  pub name : Str
  pub params : Json
  pub headers : Option Json
  pub retry_strategy : RetryStrategy
  pub other_attempts : ℕ
  pub cancellation : Option Limits
  pub idempotency_key : Option Str

pub record RunRow : Type 0 where
  pub task_id : ℕ
  pub attempt : ℕ
  pub state : TaskState
  pub claimed_by : Option Str
  pub claim_expires_at : Option ℕ
  pub available_at : ℕ
  pub started_at : Option ℕ
  pub completed_at : Option ℕ
  pub failed_at : Option ℕ
  pub result : Option Json
  pub failure_reason : Option Json

-- The tables, with the index of idempotency keys, and the numbers of the clock's readings and of the UUIDs generated so far.
pub record Tables : Type 0 where
  pub tasks : ℕ → Option TaskRow
  pub runs : ℕ → Option RunRow
  pub checkpoints : ℕ → Str → Option Json
  pub keys : Str → Option ℕ
  pub readings : ℕ
  pub generated : ℕ

unfoldable pub put {ℓ} : {A : Type ℓ} → ℕ → A → (ℕ → Option A) → ℕ → Option A
put k a f x = if x == k then some a else f x

abbrev pub set_run : ℕ → RunRow → Tables → Tables
set_run r run s = record s { runs = put r run s.runs }

abbrev pub set_task : ℕ → TaskRow → Tables → Tables
set_task t task s = record s { tasks = put t task s.tasks }

-- A reading of the clock.
abbrev pub tick : Tables → Tables
tick s = record s { readings = s.readings + 1 }

-- A call of uuidv7().
abbrev pub draw : Tables → Tables
draw s = record s { generated = s.generated + 1 }

-- Neither completed nor failed nor cancelled.
abbrev pub is_active : TaskState → Bool
is_active TaskState.pending = true
is_active TaskState.running = true
is_active TaskState.sleeping = true
is_active _ = false

abbrev pub has_passed : Option ℕ → ℕ → ℕ → Bool
has_passed none from at = false
has_passed (some seconds) from at = leb (from + seconds * 1_000_000) at

unfoldable pub cancellation_due : Option Limits → ℕ → Option ℕ → ℕ → Bool
cancellation_due none enqueue_at first_started_at observed_at = false
cancellation_due (some l) enqueue_at none observed_at =
    has_passed l.max_delay enqueue_at observed_at
cancellation_due (some l) enqueue_at (some start) observed_at =
    has_passed l.max_duration start observed_at

-- The cancellation of a task, at a time.
abbrev pub is_due : TaskRow → ℕ → Bool
is_due task at = cancellation_due task.cancellation task.enqueue_at task.first_started_at at

-- The second UPDATE of cancel_task, on one row.
abbrev pub cancel_row : ℕ → RunRow → RunRow
cancel_row t run =
    if run.task_id == t
    then (if is_active run.state
        then record run { state = TaskState.cancelled; claimed_by = none; claim_expires_at = none }
        else run)
    else run

abbrev pub map_row : (RunRow → RunRow) → Option RunRow → Option RunRow
map_row f none = none
map_row f (some run) = some (f run)

abbrev pub coalesce {ℓ} : {A : Type ℓ} → Option A → A → Option A
coalesce none a = some a
coalesce (some b) a = some b
