-- ===== src/Sql/Calls.antt =====
-- The calls of workers and clients that change the tasks of a queue, and a history of them. The calls
-- that delete tasks with their runs and checkpoints are not among them: cleanup_tasks, which deletes
-- tasks past their retention, and drop_queue. What a history keeps, it keeps for the tasks retained.
use steda.Prelude.{ℕ, Option, List, [], ◌∷◌, Bool}
use steda.Text.{Str}
use steda.Json.{Json}
use steda.Error.{Result, ok, err}
use steda.Sql.Spawns.{spawn_task}
use steda.Sql.{Request, Tables}
use steda.Sql.Attempts.{
  Raised, Server, complete_run, schedule_run, fail_run, cancel_task, retry_task,
}
use steda.Sql.Checkpoints.{set_task_checkpoint_state}
use steda.Sql.Supervision.{supervise_run}
use steda.Sql.Claims.{Scans, claim_tasks}

pub data Call : Type 0 where
  spawns : (request : Request) → Call
  completes : (run : ℕ) (result : Json) → Call
  schedules : (run wake_at : ℕ) → Call
  fails : (run : ℕ) (reason : Json) (expired : Bool) → Call
  cancels : (task : ℕ) → Call
  retries : (task : ℕ) → Call
  supervises : (run : ℕ) (seconds : Option ℕ) → Call
  claims : (scans : Scans) (worker_id : Str) (lease quantity : ℕ) (names : List Str) → Call
  commits : (task : ℕ) (name : Str) (state : Json) (run : ℕ) → Call

-- A statement that raises leaves the tables as they were.
abbrev pub settled : {A : Type 0} → Tables → Result (A × Tables) Raised → Tables
settled s (ok p) = p.1
settled s (err e) = s

module _ (server : Server) where
  unfoldable pub perform : Call → Tables → Tables
  perform (spawns request) s = settled s (spawn_task server request s)
  perform (completes r result) s = settled s (complete_run server r result s)
  perform (schedules r at) s = settled s (schedule_run server r at s)
  perform (fails r reason expired) s = settled s (fail_run server r reason expired s)
  perform (cancels t) s = settled s (cancel_task server t s)
  perform (retries t) s = settled s (retry_task server t s)
  perform (supervises r seconds) s = settled s (supervise_run server r seconds s)
  perform (claims scans w lease quantity names) s =
      settled s (claim_tasks server scans w lease quantity names s)
  perform (commits t name state r) s = settled s (set_task_checkpoint_state server t name state r s)

  unfoldable pub perform_all : List Call → Tables → Tables
  unfolding perform
  perform_all [] s = s
  perform_all (call ∷ calls) s = perform_all calls (perform call s)
