-- ===== src/Db.antt =====
-- src/db.rs: the shared calls of the database, with the decoding of their rows.
pub mod Rows
pub mod Claims
pub mod Polling
pub mod Deadline
pub mod Timeouts
use steda.Prelude.{
  ℕ, zero, suc, ◌+◌, ◌-◌, Bool, true, false, Option, none, some, List, [], ◌∷◌, leb, if◌then◌else◌,
  to_unsigned, not,
}
use steda.Text.{Str, codes, str_eq}
use steda.Duration.{Duration, as_nanos, from_nanos, from_millis, from_secs, shorter, twice, minus}
use steda.Json.{Json, JsonObject}
use steda.Identifiers.{TaskId, RunId}
use steda.Error.{Error, Result, ok, err, ok_or, format, literal, Argument}
use steda.Types.{ClaimedTask, TaskResultSnapshot, is_terminal}
use steda.World.{
  M, ◌>>=◌, ◌>>◌, pure, fail, lift, call, call_mapped, ClaimedRow, ResultRow, Database, Clock,
}

abbrev pub initial_result_backoff : Duration
initial_result_backoff = from_millis 50

abbrev pub max_result_backoff : Duration
max_result_backoff = from_secs 1

-- The `match` on the headers column.
unfoldable pub headers_from_column : Option Json → Result (Option JsonObject) Error
headers_from_column none = ok none
headers_from_column (some Json.null) = ok none
headers_from_column (some (Json.object m)) = ok (some m)
headers_from_column (some other) = err (
    Error.invalid_task_headers
      (format "headers payload must be a JSON object, got {other}" (Argument.json other ∷ [])))

abbrev claimed_task : ClaimedRow → Option JsonObject → Option ℕ → Result ClaimedTask Error
claimed_task row headers none =
    err (Error.other (literal "PostgreSQL returned a negative task attempt"))
claimed_task row headers (some attempt) = ok (record {
  run_id = row.run_id;
  task_id = row.task_id;
  task_name = row.task_name;
  attempt = attempt;
  params = row.params;
  headers = headers;
})

unfoldable pub claimed_task_from_row : ClaimedRow → Result ClaimedTask Error
unfolding headers_from_column
claimed_task_from_row row = elim (headers_from_column row.headers) [
  | ok headers ↦ claimed_task row headers (to_unsigned row.attempt)
  | err e ↦ err e
]

-- `rows.iter().map(claimed_task_from_row).collect()`: the first error, or all tasks in order.
unfoldable pub claimed_tasks_from_rows : List ClaimedRow → Result (List ClaimedTask) Error
unfolding claimed_task_from_row
claimed_tasks_from_rows [] = ok []
claimed_tasks_from_rows (row ∷ rows) = elim (claimed_task_from_row row) [
  | ok task ↦ elim (claimed_tasks_from_rows rows) [ ok tasks ↦ ok (task ∷ tasks) | err e ↦ err e ]
  | err e ↦ err e
]

pub data RunSupervision : Type 0 where
  running completed failed cancelled suspended lease_lost : RunSupervision

unfoldable pub supervision_from_outcome : Str → Result RunSupervision Error
supervision_from_outcome outcome =
    if str_eq outcome (codes "running")
    then ok running
    else if str_eq outcome (codes "completed")
    then ok completed
    else if str_eq outcome (codes "failed")
    then ok failed
    else if str_eq outcome (codes "cancelled")
    then ok cancelled
    else if str_eq outcome (codes "suspended")
    then ok suspended
    else if str_eq outcome (codes "lease_lost")
    then ok lease_lost
    else err (
        Error.other (
          format "PostgreSQL returned unknown run supervision outcome {other:?}"
            (Argument.debug outcome ∷ [])))

-- The snapshot of a row whose task name has been checked.
unfoldable pub snapshot_from_state : TaskId → ResultRow → Result TaskResultSnapshot Error
snapshot_from_state task_id row =
    if str_eq row.state (codes "pending")
    then ok TaskResultSnapshot.pending
    else if str_eq row.state (codes "running")
    then ok TaskResultSnapshot.running
    else if str_eq row.state (codes "sleeping")
    then ok TaskResultSnapshot.sleeping
    else if str_eq row.state (codes "completed")
    then completed_snapshot row.result
    else if str_eq row.state (codes "failed")
    then failed_snapshot row.failure_reason
    else if str_eq row.state (codes "cancelled")
    then ok TaskResultSnapshot.cancelled
    else err (
        Error.other (
          format "PostgreSQL returned unknown task state {other:?} for task {task_id}"
            (Argument.debug row.state ∷ Argument.task task_id ∷ [])))
  where
    completed_snapshot : Option Json → Result TaskResultSnapshot Error
    completed_snapshot none = err (
        Error.other
          (format "completed task {task_id} has no persisted result" (Argument.task task_id ∷ [])))
    completed_snapshot (some result) = ok (TaskResultSnapshot.completed result)

    failed_snapshot : Option Json → Result TaskResultSnapshot Error
    failed_snapshot none = err (
        Error.other
          (format "failed task {task_id} has no persisted failure" (Argument.task task_id ∷ [])))
    failed_snapshot (some failure) = ok (TaskResultSnapshot.failed failure)

-- The decoding of `steda.get_task_result`'s optional row.
unfoldable pub snapshot_from_row :
    Str → TaskId → Option ResultRow → Result (Option TaskResultSnapshot) Error
unfolding snapshot_from_state
snapshot_from_row task_name task_id none = ok none
snapshot_from_row task_name task_id (some row) =
    if not (str_eq row.task_name task_name)
    then err (Error.task_name_mismatch task_id task_name row.task_name)
    else elim (snapshot_from_state task_id row) [ ok snapshot ↦ ok (some snapshot) | err e ↦ err e ]

module _ {S : Type 0} (db : Database S) where
  unfoldable pub claim_tasks : Str → Str → ℕ → ℕ → List Str → M S (List ClaimedTask)
  claim_tasks queue_name worker_id lease_seconds batch_size supported_tasks = do
    rows ← call (db.claim_tasks queue_name worker_id lease_seconds batch_size supported_tasks)
    lift (claimed_tasks_from_rows rows)

  unfoldable pub supervise_run : Str → RunId → Option ℕ → M S RunSupervision
  supervise_run queue_name run_id renew_for_seconds = do
    outcome ← call_mapped (db.supervise_run queue_name run_id renew_for_seconds)
    lift (supervision_from_outcome outcome)

  unfoldable pub fetch_task_result_snapshot : Str → Str → TaskId → M S (Option TaskResultSnapshot)
  fetch_task_result_snapshot queue_name task_name task_id = do
    row ← call (db.get_task_result queue_name task_id)
    lift (snapshot_from_row task_name task_id row)

-- One observation by the polling loop: a missing task is an error.
abbrev pub observed : TaskId → Option TaskResultSnapshot → Result TaskResultSnapshot Error
observed task_id snapshot = ok_or snapshot (Error.task_not_found task_id)

abbrev pub timed_out : TaskId → Error
timed_out task_id =
    Error.timeout (format "timed out waiting for task {task_id}" (Argument.task task_id ∷ []))

module _ {S : Type 0} (db : Database S) where
  -- One query of the loop.
  unfoldable pub poll : Str → Str → TaskId → M S TaskResultSnapshot
  poll queue_name task_name task_id = do
    snapshot ← fetch_task_result_snapshot db queue_name task_name task_id
    lift (observed task_id snapshot)

-- What the loop does with a snapshot: return it, give up, or sleep for a delay.
pub data Verdict : Type 0 where
  answers : TaskResultSnapshot → Verdict
  gives_up : Verdict
  waits : Duration → Verdict

unfoldable pub judge :
    TaskResultSnapshot → Option Duration → (elapsed : ℕ) (delay : Duration) → Verdict
judge snapshot timeout elapsed delay =
    if is_terminal snapshot then answers snapshot else limit timeout
  where
    limit : Option Duration → Verdict
    limit none = waits delay
    limit (some t) =
        if leb (as_nanos t) elapsed
        then gives_up
        else waits (shorter delay (minus t (from_nanos elapsed)))

-- `(delay * 2).min(MAX_RESULT_BACKOFF)`.
abbrev pub next_delay : Duration → Duration
next_delay delay = shorter (twice delay) max_result_backoff

-- The rest of one round: `rest` is the loop from the next round on, at its delay and state.
module _ {S : Type 0} (clock : Clock S) (task_id : TaskId) (timeout : Option Duration) where
  abbrev Answer : Type 0
  Answer = Option (Result TaskResultSnapshot Error × S)

  abbrev pub act : (Duration → S → Answer) → Verdict → S → Answer
  act rest (answers a) t = some (ok a, t)
  act rest gives_up t = some (err (timed_out task_id), t)
  act rest (waits d) t = rest (next_delay d) (clock.sleep d t)

  abbrev pub resume :
      (Duration → S → Answer)
      → (started : ℕ) (delay : Duration) → Result TaskResultSnapshot Error × S
      → Answer
  resume rest started delay (err e, t) = some (err e, t)
  resume rest started delay (ok snapshot, t) =
      act rest (judge snapshot timeout (clock.now t - started) delay) t

module _ {S : Type 0} (db : Database S) (clock : Clock S) where
  -- The polling loop, with fuel for its rounds; `none` means that the fuel ran out.
  unfoldable pub await_loop :
      ℕ
      → Str
      → Str
      → TaskId
      → Option Duration
      → (started : ℕ) (delay : Duration) → S
      → Option (Result TaskResultSnapshot Error × S)
  await_loop zero queue_name task_name task_id timeout started delay s = none
  await_loop (suc fuel) queue_name task_name task_id timeout started delay s =
      resume clock task_id timeout (await_loop fuel queue_name task_name task_id timeout started)
        started delay (poll db queue_name task_name task_id s)

  unfoldable pub await_task_result_snapshot :
      ℕ → Str → Str → TaskId → Option Duration → S → Option (Result TaskResultSnapshot Error × S)
  unfolding await_loop
  await_task_result_snapshot fuel queue_name task_name task_id timeout s =
      await_loop fuel queue_name task_name task_id timeout (clock.now s) initial_result_backoff s
