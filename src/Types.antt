-- ===== src/Types.antt =====
-- src/types.rs: retry strategies, cancellation and queue policies, spawn configuration, task
-- states, result snapshots and claimed tasks.
use steda.Prelude.{ℕ, Bool, true, false, Option, none, some}
use steda.Text.{Str}
use steda.Duration.{Duration}
use steda.Json.{F64, Json, JsonObject}
use steda.Identifiers.{TaskId, RunId}

-- `never` is the source's `None`.
pub data RetryStrategy : Type 0 where
  fixed : (delay : Duration) → RetryStrategy
  exponential :
      (initial_delay : Duration) (factor : F64) (max_delay : Option Duration) → RetryStrategy
  never : RetryStrategy

pub record CancellationPolicy : Type 0 where
  pub max_duration : Option Duration
  pub max_delay : Option Duration

abbrev pub new_cancellation_policy : CancellationPolicy
new_cancellation_policy = record { max_duration = none; max_delay = none }

abbrev pub with_max_duration : CancellationPolicy → Duration → CancellationPolicy
with_max_duration p d = record p { max_duration = some d }

abbrev pub with_max_delay : CancellationPolicy → Duration → CancellationPolicy
with_max_delay p d = record p { max_delay = some d }

pub record SpawnConfig : Type 0 where
  pub max_attempts : Option ℕ  -- u32
  pub retry_strategy : Option RetryStrategy
  pub headers : Option JsonObject
  pub cancellation : Option CancellationPolicy
  pub idempotency_key : Option Str

-- `SpawnConfig::default()`.
abbrev pub default_config : SpawnConfig
default_config = record {
  max_attempts = none;
  retry_strategy = none;
  headers = none;
  cancellation = none;
  idempotency_key = none;
}

pub record SpawnResult : Type 0 where
  pub task_id : TaskId
  pub created : Bool

pub record QueuePolicyOptions : Type 0 where
  pub cleanup_ttl : Option Duration
  pub cleanup_limit : Option ℕ  -- u32

abbrev pub new_policy_options : QueuePolicyOptions
new_policy_options = record { cleanup_ttl = none; cleanup_limit = none }

abbrev pub with_cleanup_ttl : QueuePolicyOptions → Duration → QueuePolicyOptions
with_cleanup_ttl p d = record p { cleanup_ttl = some d }

abbrev pub with_cleanup_limit : QueuePolicyOptions → ℕ → QueuePolicyOptions
with_cleanup_limit p n = record p { cleanup_limit = some n }

pub record QueuePolicy : Type 0 where
  pub queue_name : Str
  pub cleanup_ttl : Duration
  pub cleanup_limit : ℕ  -- u32

pub record QueueCleanup : Type 0 where
  pub queue_name : Str
  pub tasks_deleted : ℕ  -- u32

pub data TaskState : Type 0 where
  pending running sleeping completed failed cancelled : TaskState

-- The snapshot of a task's result as the database returns it.
pub data TaskResultSnapshot : Type 0 where
  pending running sleeping : TaskResultSnapshot
  completed : (result : Json) → TaskResultSnapshot
  failed : (failure : Json) → TaskResultSnapshot
  cancelled : TaskResultSnapshot

-- `TaskResultSnapshot::is_terminal`.
abbrev pub is_terminal : TaskResultSnapshot → Bool
is_terminal (TaskResultSnapshot.completed _) = true
is_terminal (TaskResultSnapshot.failed _) = true
is_terminal TaskResultSnapshot.cancelled = true
is_terminal _ = false

pub record ClaimedTask : Type 0 where
  pub run_id : RunId
  pub task_id : TaskId
  pub task_name : Str
  pub attempt : ℕ  -- u32
  pub params : Json
  pub headers : Option JsonObject
