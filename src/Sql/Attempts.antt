-- ===== src/Sql/Attempts.antt =====
-- sql/steda.sql: the functions of a running attempt, of cancellation and retry. A call is one
-- statement: where it raises, what it has done is rolled back, so an error carries no tables. What
-- the server computes is a parameter: retry_delay_seconds works with its floats.
use steda.Prelude.{
  ◌&&◌, ◌||◌, ℕ, ◌+◌, max, Bool, true, false, not, Option, none, some, ◌==◌, leb, ltb,
  if◌then◌else◌,
}
use steda.Text.{Str, codes}
use steda.Json.{Json}
use steda.Error.{Result, ok, err, fail_if, ◌>>=◌}
use steda.Types.{RetryStrategy, TaskState}
use steda.Sql.{
  TaskRow, RunRow, Tables, put, set_run, set_task, tick, draw, is_active, is_due, cancel_row,
  map_row, coalesce,
}

pub data Raised : Type 0 where
  sqlstate : Str → Raised
  exception : Raised

-- The row of lock_attempt_context.
pub record AttemptContext : Type 0 where
  pub run : RunRow
  pub task : TaskRow
  pub observed_at : ℕ

abbrev pub run_check : TaskState → Result (Unit {0}) Raised
run_check TaskState.cancelled = err (sqlstate (codes "ST001"))
run_check TaskState.failed = err (sqlstate (codes "ST002"))
run_check TaskState.running = ok tt
run_check _ = err exception

abbrev pub task_check : TaskState → Result (Unit {0}) Raised
task_check TaskState.cancelled = err (sqlstate (codes "ST001"))
task_check TaskState.running = ok tt
task_check _ = err exception

abbrev pub lease_check : Bool → Option ℕ → ℕ → Result (Unit {0}) Raised
lease_check expired none at = err exception
lease_check true (some expires) at = fail_if (ltb at expires) exception
lease_check false (some expires) at = fail_if (leb expires at) (sqlstate (codes "ST003"))

-- The checks of lock_running_attempt, in their order.
unfoldable pub running_check : ℕ → Bool → AttemptContext → Result (Unit {0}) Raised
running_check r expired c = run_check c.run.state >>= λ a. task_check c.task.state >>= λ b.
    fail_if (not (c.task.last_attempt_run == r)) exception >>= λ d.
    lease_check expired c.run.claim_expires_at c.observed_at

-- What the server returns: the readings of its clock, the UUIDs of uuidv7(), retry_delay_seconds in
-- microseconds, a timestamp as JSON, and its comparison of jsonb values, which a retry strategy is too.
pub record Server : Type 0 where
  pub clock : ℕ → ℕ
  pub uuid : ℕ → ℕ
  pub retry_delay : RetryStrategy → ℕ → ℕ
  pub timestamp_json : ℕ → Json
  pub same_json : Json → Json → Bool
  pub same_strategy : RetryStrategy → RetryStrategy → Bool

-- `PERFORM`, with what is returned instead of its result.
abbrev pub instead {ℓ} :
    {A : Type ℓ} → A → Result (Bool × Tables) Raised → Result (A × Tables) Raised
instead a r = r >>= λ p. ok (a, p.1)

module _ (server : Server) where
  unfoldable pub lock_attempt_context : ℕ → Tables → Result (AttemptContext × Tables) Raised
  lock_attempt_context r s = elim (s.runs r) [
    | none ↦ err exception
    | some run ↦ elim (s.tasks run.task_id) [
      | none ↦ err exception
      | some task ↦
          ok (record { run = run; task = task; observed_at = server.clock s.readings }, tick s)
    ]
  ]

  unfoldable pub lock_running_attempt : ℕ → Bool → Tables → Result (AttemptContext × Tables) Raised
  lock_running_attempt r expired s =
      lock_attempt_context r s >>= λ p. running_check r expired p.0 >>= λ valid. ok p

  abbrev pub cancelled_tables : ℕ → TaskRow → ℕ → Tables → Tables
  cancelled_tables t task at s = record s {
    tasks =
        put t
          (record task {
            state = TaskState.cancelled;
            cancelled_at = coalesce task.cancelled_at at;
          })
          s.tasks;
    runs = λ r. map_row (cancel_row t) (s.runs r);
  }

  unfoldable pub cancel_task : ℕ → Tables → Result (Bool × Tables) Raised
  cancel_task t s = elim (s.tasks t) [
    | none ↦ err exception
    | some task ↦ ok (
        if is_active task.state
        then (true, cancelled_tables t task (server.clock s.readings) (tick s))
        else (false, tick s))
  ]

  abbrev pub completed_run : ℕ → Json → RunRow → RunRow
  completed_run at result run = record run {
    state = TaskState.completed;
    completed_at = some at;
    result = some result;
    claimed_by = none;
    claim_expires_at = none;
  }

  unfoldable pub complete_run : ℕ → Json → Tables → Result (Bool × Tables) Raised
  complete_run r result s = lock_running_attempt r false s >>= λ (c, u).
      if is_due c.task c.observed_at
      then instead false (cancel_task c.run.task_id u)
      else ok (
        true,
        set_task c.run.task_id (record c.task { state = TaskState.completed; last_attempt_run = r })
            (set_run r (completed_run c.observed_at result c.run) u),
      )

  abbrev pub slept_run : ℕ → RunRow → RunRow
  slept_run wake_at run = record run {
    state = TaskState.sleeping;
    claimed_by = none;
    claim_expires_at = none;
    available_at = wake_at;
  }

  unfoldable pub schedule_run : ℕ → ℕ → Tables → Result (Str × Tables) Raised
  schedule_run r wake_at s = lock_running_attempt r false s >>= λ (c, u).
      if is_due c.task c.observed_at || is_due c.task wake_at
      then instead (codes "cancelled") (cancel_task c.run.task_id u)
      else if leb wake_at c.observed_at
      then ok (codes "ready", u)
      else ok (
        codes "suspended",
        set_task c.run.task_id (record c.task { state = TaskState.sleeping })
            (set_run r (slept_run wake_at c.run) u),
      )

  -- INSERT of a run, whose primary key must be new. The unique index on the attempts of a task and
  -- that on its active run do not raise here; on consistent tables there is nothing for them to refuse,
  -- since the new attempt is the next one and no other run of the task is active. An attempt beyond
  -- the range of INTEGER would raise.
  unfoldable pub insert_run : ℕ → RunRow → Tables → Result Tables Raised
  insert_run n run s = elim (s.runs n) [ none ↦ ok (set_run n run s) | some old ↦ err exception ]

  abbrev pub new_run : ℕ → ℕ → TaskState → ℕ → RunRow
  new_run t attempt state available_at = record {
    task_id = t;
    attempt = attempt;
    state = state;
    claimed_by = none;
    claim_expires_at = none;
    available_at = available_at;
    started_at = none;
    completed_at = none;
    failed_at = none;
    result = none;
    failure_reason = none;
  }

  abbrev pub failed_run : ℕ → Json → RunRow → RunRow
  failed_run at reason run = record run {
    state = TaskState.failed;
    failed_at = some at;
    failure_reason = some reason;
    claimed_by = none;
    claim_expires_at = none;
  }

  abbrev pub is_retried : RetryStrategy → Bool
  is_retried RetryStrategy.never = false
  is_retried _ = true

  abbrev pub retries : AttemptContext → Bool
  retries c = is_retried c.task.retry_strategy && leb (c.run.attempt + 1) c.task.max_attempts

  abbrev pub retry_at : AttemptContext → ℕ
  retry_at c =
      max c.observed_at (c.observed_at + server.retry_delay c.task.retry_strategy c.run.attempt)

  abbrev pub next_state : AttemptContext → TaskState
  next_state c = if ltb c.observed_at (retry_at c) then TaskState.sleeping else TaskState.pending

  -- The retry of a run that has failed, as a new run.
  unfoldable pub insert_retry : AttemptContext → Tables → Result (Unit {0} × Tables) Raised
  insert_retry c s =
      insert_run (server.uuid s.generated)
        (new_run c.run.task_id (c.run.attempt + 1) (next_state c) (retry_at c)) (draw s)
      >>= λ u. ok (
        tt,
        set_task c.run.task_id
            (record c.task {
              state = next_state c;
              attempts = max c.task.attempts (c.run.attempt + 1);
              last_attempt_run = server.uuid s.generated;
            })
            u,
      )

  -- What follows the failure of a run: a retry, the cancellation of the task, or its failure.
  unfoldable pub after_failure : ℕ → AttemptContext → Tables → Result (Unit {0} × Tables) Raised
  after_failure r c s =
      if retries c
      then (if is_due c.task (retry_at c)
          then instead tt (cancel_task c.run.task_id s)
          else insert_retry c s)
      else ok (
        tt,
        set_task c.run.task_id
            (record c.task {
              state = TaskState.failed;
              attempts = max c.task.attempts c.run.attempt;
              last_attempt_run = r;
            })
            s,
      )

  unfoldable pub fail_run : ℕ → Json → Bool → Tables → Result (Unit {0} × Tables) Raised
  fail_run r reason expired s = lock_running_attempt r expired s >>= λ (c, u).
      if is_due c.task c.observed_at
      then instead tt (cancel_task c.run.task_id u)
      else after_failure r c (set_run r (failed_run c.observed_at reason c.run) u)

  abbrev pub failed_check : TaskState → Result (Unit {0}) Raised
  failed_check TaskState.failed = ok tt
  failed_check _ = err exception

  abbrev pub reopen : ℕ → TaskRow → ℕ → Tables → Result (ℕ × Tables) Raised
  reopen t task at s = failed_check task.state >>= λ a. fail_if (is_due task at) exception >>= λ b.
      insert_run (server.uuid s.generated) (new_run t (task.attempts + 1) TaskState.pending at)
        (draw s)
      >>= λ u. ok (
        server.uuid s.generated,
        set_task t
            (record task {
              state = TaskState.pending;
              attempts = task.attempts + 1;
              max_attempts = max task.max_attempts (task.attempts + 1);
              last_attempt_run = server.uuid s.generated;
              cancelled_at = none;
            })
            u,
      )

  unfoldable pub retry_task : ℕ → Tables → Result (ℕ × Tables) Raised
  retry_task t s = elim (s.tasks t) [
    | none ↦ err exception
    | some task ↦ reopen t task (server.clock s.readings) (tick s)
  ]
