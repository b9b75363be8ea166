-- ===== src/World.antt =====
-- What the crate calls outside itself, as operations on a state that they may change in any way:
-- the stored procedures of the database (sql/steda.sql) and the clock of the runtime. Theorems take
-- them as parameters, so they hold whatever other clients do between two calls.
use steda.Prelude.{ℕ, ℤ, Bool, Option, List, ◌≤◌, ◌+◌}
use steda.Text.{Str}
use steda.Duration.{Duration, as_nanos}
use steda.Json.{Json}
use steda.Identifiers.{TaskId, RunId}
use steda.Error.{Error, SqlxError, Result, ok, err, map_err, map_sqlx_error}
use steda.Types.{SpawnResult}

-- Fallible code over a state. An error keeps the state that it leaves.
abbrev pub M : Type 0 → Type 0 → Type 0
M S A = S → Result A Error × S

infixl 5 ◌>>=◌ ◌>>◌
abbrev pub ◌>>=◌ : {S A B : Type 0} → M S A → (A → M S B) → M S B
◌>>=◌ m f s = let (r, t) = m s in elim r [ ok a ↦ f a t | err e ↦ (err e, t) ]

abbrev pub ◌>>◌ : {S B : Type 0} → M S (Unit {0}) → M S B → M S B
m >> k = m >>= λ _. k

abbrev pub pure : {S A : Type 0} → A → M S A
pure a s = (ok a, s)

abbrev pub fail : {S A : Type 0} → Error → M S A
fail e s = (err e, s)

-- A result that depends on no state.
abbrev pub lift : {S A : Type 0} → Result A Error → M S A
lift r s = (r, s)

abbrev pub Procedure : Type 0 → Type 0 → Type 0
Procedure S A = S → Result A SqlxError × S

-- A database call whose error becomes `Error::Database`, by `?`.
abbrev pub call : {S A : Type 0} → Procedure S A → M S A
call p s = let (r, t) = p s in (map_err Error.database r, t)

-- A database call with `.map_err(map_sqlx_error)?`.
abbrev pub call_mapped : {S A : Type 0} → Procedure S A → M S A
call_mapped p s = let (r, t) = p s in (map_err map_sqlx_error r, t)

-- A row of `steda.claim_tasks`.
pub record ClaimedRow : Type 0 where
  pub run_id : RunId
  pub task_id : TaskId
  pub attempt : ℤ
  pub task_name : Str
  pub params : Json
  pub headers : Option Json

-- A row of `steda.get_task_result`.
pub record ResultRow : Type 0 where
  pub task_name : Str
  pub state : Str
  pub result : Option Json
  pub failure_reason : Option Json

-- A row of `steda.get_queue_policy`, the interval in whole seconds.
pub record PolicyRow : Type 0 where
  pub queue_name : Str
  pub cleanup_ttl_seconds : ℤ
  pub cleanup_limit : ℤ

-- A point of PostgreSQL's time, counted from the earliest that is represented.
abbrev pub Timestamp : Type 0
Timestamp = ℕ

-- What a statement runs on: a connection of the pool, or the open transaction.
pub data Connection : Type 0 where
  pool transaction : Connection

pub record Database (S : Type 0) : Type 0 where
  pub spawn_task : (queue name : Str) (params options : Json) → Procedure S SpawnResult
  pub cancel_task : (queue : Str) → TaskId → Procedure S (Unit {0})
  pub retry_task : (queue : Str) → TaskId → Procedure S RunId
  pub create_queue : Connection → (queue : Str) → Procedure S (Unit {0})
  pub set_queue_policy :
      Connection
      → (queue : Str) (cleanup_ttl_seconds cleanup_limit : Option ℕ) → Procedure S (Unit {0})
  pub get_queue_policy : (queue : Str) → Procedure S (Option PolicyRow)
  pub drop_queue : (queue : Str) → Procedure S (Unit {0})
  pub list_queues : Procedure S (List Str)
  pub cleanup_tasks : (queue : Str) → Procedure S ℤ
  pub cleanup_all_queues : Procedure S (List (Str × ℤ))
  pub get_task_result : (queue : Str) → TaskId → Procedure S (Option ResultRow)
  pub claim_tasks :
      (queue worker_id : Str) (lease_seconds batch_size : ℕ) (supported : List Str)
      → Procedure S (List ClaimedRow)
  pub supervise_run : (queue : Str) → RunId → (renew_for_seconds : Option ℕ) → Procedure S Str
  pub get_task_checkpoint_states : (queue : Str) → TaskId → RunId → Procedure S (List (Str × Json))
  pub set_task_checkpoint_state :
      (queue : Str) → TaskId → (name : Str) → Json → RunId → Procedure S (Json × Bool)
  pub schedule_run : (queue : Str) → RunId → (wake_at : Timestamp) → Procedure S Str
  pub complete_run : (queue : Str) → RunId → (result : Json) → Procedure S Bool
  pub fail_run : (queue : Str) → RunId → (failure : Json) → Procedure S (Unit {0})
  pub current_time : Procedure S Timestamp
  pub begin : Procedure S (Unit {0})
  pub commit : Procedure S (Unit {0})
  pub rollback : S → S

-- The runtime's monotonic clock, in nanoseconds, and its timer.
pub record Clock (S : Type 0) : Type 0 where
  pub now : S → ℕ
  pub sleep : Duration → S → S

-- What tokio documents of the two: a sleep lasts at least its duration.
pub record IsClock {S : Type 0} (c : Clock S) : Type 0 where
  pub slept : (d : Duration) (s : S) → c.now s + as_nanos d ≤ c.now (c.sleep d s)
