-- ===== src/Sql/Spawns.antt =====
-- sql/steda.sql, spawn_task, on options that have been parsed and validated.
use steda.Prelude.{◌==◌, ◌&&◌, ℕ, ◌+◌, Bool, true, false, Option, none, some, if◌then◌else◌}
use steda.Text.{Str, codes, str_eq}
use steda.Error.{Result, ok, err, ◌>>=◌}
use steda.Types.{TaskState}
use steda.Sql.{Limits, Request, TaskRow, Tables, tick, draw, set_task}
use steda.Sql.Attempts.{Raised, sqlstate, exception, Server, insert_run, new_run}

abbrev pub new_task : Request → ℕ → ℕ → TaskRow
new_task request run at = record {
  name = request.name;
  params = request.params;
  headers = request.headers;
  retry_strategy = request.retry_strategy;
  initial_max_attempts = request.other_attempts + 1;
  max_attempts = request.other_attempts + 1;
  cancellation = request.cancellation;
  enqueue_at = at;
  first_started_at = none;
  state = TaskState.pending;
  attempts = 1;
  last_attempt_run = run;
  cancelled_at = none;
}

-- The entry of the unique index.
abbrev pub record_key : Option Str → ℕ → Tables → Tables
record_key none t s = s
record_key (some key) t s = record s { keys = λ k. if str_eq k key then some t else s.keys k }

abbrev pub find_key : Option Str → Tables → Option ℕ
find_key none s = none
find_key (some key) s = s.keys key

-- INSERT of a task, whose primary key must be new.
abbrev pub insert_task : ℕ → TaskRow → Option TaskRow → Tables → Result Tables Raised
insert_task t task none s = ok (set_task t task s)
insert_task t task (some old) s = err exception

-- Not IS DISTINCT FROM: two nulls are the same.
abbrev pub same_option {ℓ} : {A : Type ℓ} → (A → A → Bool) → Option A → Option A → Bool
same_option same none none = true
same_option same (some a) (some b) = same a b
same_option same _ _ = false

abbrev pub same_limits : Limits → Limits → Bool
same_limits a b =
    same_option (λ (m : ℕ) n. m == n) a.max_delay b.max_delay
    && same_option (λ (m : ℕ) n. m == n) a.max_duration b.max_duration

module _ (server : Server) where
  -- No row has the idempotency key: the task and its first run are inserted.
  abbrev pub spawn_new : Request → ℕ → ℕ → ℕ → Tables → Result ((ℕ × Bool) × Tables) Raised
  spawn_new request t n at s = insert_task t (new_task request n at) (s.tasks t) s >>= λ u.
      insert_run server n (new_run server t 1 TaskState.pending at)
        (record_key request.idempotency_key t u)
      >>= λ v. ok ((t, true), v)

  -- No column of the request IS DISTINCT FROM that of the task.
  unfoldable pub same_request : TaskRow → Request → Bool
  same_request task request =
      str_eq task.name request.name
      && server.same_json task.params request.params
      && same_option server.same_json task.headers request.headers
      && server.same_strategy task.retry_strategy request.retry_strategy
      && task.initial_max_attempts == request.other_attempts + 1
      && same_option same_limits task.cancellation request.cancellation

  -- A row has it: it must be of the same request.
  abbrev pub spawn_existing :
      Request → ℕ → Option TaskRow → Tables → Result ((ℕ × Bool) × Tables) Raised
  spawn_existing request t none s = err exception
  spawn_existing request t (some task) s =
      if same_request task request then ok ((t, false), s) else err (sqlstate (codes "ST004"))

  abbrev pub spawn_found :
      Request → ℕ → ℕ → ℕ → Option ℕ → Tables → Result ((ℕ × Bool) × Tables) Raised
  spawn_found request t n at none s = spawn_new request t n at s
  spawn_found request t n at (some old) s = spawn_existing request old (s.tasks old) s

  unfoldable pub spawn_task : Request → Tables → Result ((ℕ × Bool) × Tables) Raised
  spawn_task request s =
      spawn_found request (server.uuid s.generated) (server.uuid (s.generated + 1))
        (server.clock s.readings) (find_key request.idempotency_key s) (tick (draw (draw s)))
