-- ===== src/Executor.antt =====
-- src/executor.rs, with the service boundary of src/execution.rs: the execution of one claimed
-- attempt. A result comes with the way its metrics guard ended. User code is an `Activity`; a
-- schedule says whether the task or its supervisor is polled next.
pub mod Coherence
pub mod Authority
pub mod Completion
pub mod Failure
pub mod Progress
use steda.Prelude.{
  ℕ, ℤ, pos, negsuc, Bool, true, false, Option, none, some, List, [], ◌∷◌, ◌++◌, if◌then◌else◌,
  to_unsigned, not,
}
use steda.Text.{Str, codes, contains, str_eq}
use steda.Duration.{Duration, from_secs, half, shorter}
use steda.Json.{Json, JsonObject, empty, insert}
use steda.Identifiers.{RunId}
use steda.Error.{Error, Result, ok, err, format, Argument, map_err}
use steda.Types.{ClaimedTask}
use steda.World.{M, ◌>>=◌, ◌>>◌, pure, lift, fail, call_mapped, Database}
use steda.Context.{TaskContext, Cell, new_context, on_store}
use steda.Db.{RunSupervision, supervise_run}
use steda.Metrics.{ExecutionOutcome}
use steda.Metrics.Accounting.{End, finishes, drops}

abbrev pub max_supervision_interval : Duration
max_supervision_interval = from_secs 1

-- The interval between supervision calls, from the lease in seconds.
unfoldable supervision_interval : ℤ → Duration
supervision_interval lease_seconds =
    shorter (half (from_secs (seconds (to_unsigned lease_seconds)))) max_supervision_interval
  where
    seconds : Option ℕ → ℕ
    seconds none = 1
    seconds (some n) = n

-- `none` is the panic of `unreachable!`.
unfoldable pub execution_outcome_from_supervision : RunSupervision → Option ExecutionOutcome
execution_outcome_from_supervision RunSupervision.running = none
execution_outcome_from_supervision RunSupervision.completed = some ExecutionOutcome.completed
execution_outcome_from_supervision RunSupervision.failed = some ExecutionOutcome.failed
execution_outcome_from_supervision RunSupervision.cancelled = some ExecutionOutcome.cancelled
execution_outcome_from_supervision RunSupervision.suspended = some ExecutionOutcome.suspended
execution_outcome_from_supervision RunSupervision.lease_lost = some ExecutionOutcome.lease_lost

abbrev pub error_name : Error → Str
error_name (Error.timeout _) = codes "TimeoutError"
error_name Error.cancelled = codes "CancelledTask"
error_name Error.failed_run = codes "FailedTask"
error_name Error.lease_lost = codes "LeaseLost"
error_name Error.suspended = codes "SuspendTask"
error_name _ = codes "Error"

-- The loop of `serialize_error` over the chain of sources.
unfoldable pub add_causes : Str → List Str → Str
add_causes message [] = message
add_causes message (rendered ∷ causes) =
    add_causes
      (if not (contains message rendered) then message ++ (codes ": " ++ rendered) else message)
      causes

abbrev failure_json : Str → Str → Json
failure_json name message = Json.object (
    insert (codes "message") (Json.string message) (insert (codes "name") (Json.string name) empty))

-- How an error is displayed, and its sources after it.
pub record Rendering : Type 0 where
  pub to_string : Error → Str
  pub sources : Error → List Str

unfoldable pub failure_message : Rendering → Error → Str
unfolding add_causes
failure_message rendering error = add_causes (rendering.to_string error) (rendering.sources error)

unfoldable pub serialize_error : Rendering → Error → Json
unfolding failure_message
serialize_error rendering error = failure_json (error_name error) (failure_message rendering error)

-- A panic payload is a string, or of no known type.
unfoldable pub panic_message : Option Str → Str
panic_message none = codes "unknown panic payload"
panic_message (some message) = message

unfoldable pub panic_json : Option Str → Json
unfolding panic_message
panic_json payload = failure_json (codes "Panic") (codes "panic: " ++ panic_message payload)

-- What a future is found to do: it returns, it panics, or it acts on the world and stays pending.
pub data Poll (S A : Type 0) : Type 0 where
  returns : Result A Error → Poll S A
  panics : Option Str → Poll S A
  acts : (Cell S → Cell S) → Poll S A

-- A future, by what it does at each poll, given the cells that it has found at the polls before, the
-- first one first. Nothing says that it ever returns.
abbrev pub Future : Type 0 → Type 0 → Type 0
Future S A = List (Cell S) → Poll S A

-- What is left of a future that was polled with a cell.
abbrev pub resumed : {S A : Type 0} → Cell S → Future S A → Future S A
resumed c future later = future (c ∷ later)

-- The future of an invocation.
abbrev pub Activity : Type 0 → Type 0
Activity S = Future S Json

abbrev pub TaskExecutor : Type 0 → Type 0
TaskExecutor S = Json → TaskContext → Activity S

pub record ExecutionRequest (S : Type 0) : Type 0 where
  pub context : TaskContext
  pub input : Json
  pub executor : TaskExecutor S

-- `ExecutionService::call`, the service under all layers.
unfoldable pub base_service : {S : Type 0} → ExecutionRequest S → Activity S
base_service request = request.executor request.input request.context

pub data Turn : Type 0 where
  task_polled supervisor_polled : Turn

-- What ended the `select!`.
pub data Winner : Type 0 where
  returned : Result Json Error → Winner
  panicked : Option Str → Winner
  supervised : RunSupervision → Winner
  unsupervised : Error → Winner

-- An attempt's result, the end of its guard, and the state that it leaves.
abbrev pub Attempt : Type 0 → Type 0
Attempt S = Result (Unit {0}) Error × End × S

abbrev pub finished : {S : Type 0} → ExecutionOutcome → S → Attempt S
finished outcome s = (ok tt, finishes outcome, s)

abbrev pub dropped : {S : Type 0} → Error → S → Attempt S
dropped e s = (err e, drops, s)

-- `lease_lost(execution)`.
abbrev pub lost_lease : {S : Type 0} → S → Attempt S
lost_lease s = (err Error.lease_lost, finishes ExecutionOutcome.lease_lost, s)

-- The end of an attempt whose run the database no longer has running. No caller passes `running`,
-- on which the code would panic (`unreachable!`) and drop the guard.
abbrev pub finished_by : {S : Type 0} → RunSupervision → S → Attempt S
finished_by RunSupervision.running s =
    dropped (Error.other (format "running supervision has no bounded outcome" [])) s
finished_by RunSupervision.completed s = finished ExecutionOutcome.completed s
finished_by RunSupervision.failed s = finished ExecutionOutcome.failed s
finished_by RunSupervision.cancelled s = finished ExecutionOutcome.cancelled s
finished_by RunSupervision.suspended s = finished ExecutionOutcome.suspended s
finished_by RunSupervision.lease_lost s = lost_lease s

abbrev pub lookup_executor :
    {S : Type 0} → Str → List (Str × TaskExecutor S) → Option (TaskExecutor S)
lookup_executor name [] = none
lookup_executor name ((n, e) ∷ registry) =
    if str_eq name n then some e else lookup_executor name registry

module _ {S : Type 0} (db : Database S) (rendering : Rendering) (queue_name : Str)
    (run_id : RunId) where
  unfoldable pub complete_run : Json → M S (Unit {0})
  complete_run result = do
    completed ← call_mapped (db.complete_run queue_name run_id result)
    lift (if completed then ok tt else err Error.cancelled)

  unfoldable pub fail_run : Json → M S (Unit {0})
  fail_run failure = call_mapped (db.fail_run queue_name run_id failure)

  -- After a failure transition that succeeded: the database says whether it cancelled the task.
  abbrev after_failure : Result RunSupervision Error × S → Attempt S
  after_failure (ok RunSupervision.cancelled, s) = finished ExecutionOutcome.cancelled s
  after_failure (ok _, s) = finished ExecutionOutcome.failed s
  after_failure (err e, s) = dropped e s

  unfoldable pub finish_failure_transition : Result (Unit {0}) Error × S → Attempt S
  finish_failure_transition (ok tt, s) = after_failure (supervise_run db queue_name run_id none s)
  finish_failure_transition (err Error.cancelled, s) = finished ExecutionOutcome.cancelled s
  finish_failure_transition (err Error.failed_run, s) = finished ExecutionOutcome.failed s
  finish_failure_transition (err Error.lease_lost, s) = lost_lease s
  finish_failure_transition (err e, s) = dropped e s

  -- Fail the run with a payload, and finish.
  unfoldable pub fail_with : Json → S → Attempt S
  unfolding finish_failure_transition
  fail_with failure s = finish_failure_transition (fail_run failure s)

  abbrev after_completion : Result (Unit {0}) Error × S → Attempt S
  after_completion (ok tt, s) = finished ExecutionOutcome.completed s
  after_completion (err Error.cancelled, s) = finished ExecutionOutcome.cancelled s
  after_completion (err Error.lease_lost, s) = lost_lease s
  after_completion (err e, s) = dropped e s

  -- The executor returned a control-shaped error: the database says whether that happened, and if
  -- the run is still running the error is an ordinary failure.
  abbrev after_control : Error → Result RunSupervision Error × S → Attempt S
  after_control e (ok RunSupervision.running, s) = fail_with (serialize_error rendering e) s
  after_control e (ok supervision, s) = finished_by supervision s
  after_control e (err x, s) = dropped x s

  abbrev pub is_control : Error → Bool
  is_control Error.suspended = true
  is_control Error.cancelled = true
  is_control Error.failed_run = true
  is_control Error.lease_lost = true
  is_control _ = false

  -- The `match` on the result of the race.
  unfoldable pub settle : Winner → S → Attempt S
  unfolding fail_with
  settle (returned (ok output)) s = after_completion (complete_run output s)
  settle (returned (err e)) s =
      if is_control e
      then after_control e (supervise_run db queue_name run_id none s)
      else fail_with (serialize_error rendering e) s
  settle (panicked payload) s = fail_with (panic_json payload) s
  settle (supervised supervision) s = finished_by supervision s
  settle (unsupervised e) s = dropped e s

  module _ (lease_seconds : ℕ) where
    abbrev supervise : Cell S → Result RunSupervision Error × Cell S
    supervise c = on_store (supervise_run db queue_name run_id (some lease_seconds)) c

    -- One turn of the supervisor: go on by `rest` while the run is running.
    abbrev after_turn :
        (Cell S → Option (Winner × Cell S))
        → Result RunSupervision Error × Cell S
        → Option (Winner × Cell S)
    after_turn rest (ok RunSupervision.running, c) = rest c
    after_turn rest (ok supervision, c) = some (supervised supervision, c)
    after_turn rest (err e, c) = some (unsupervised e, c)

    -- The `select!` of the task and its supervision; `none` where the schedule ends first. The
    -- supervisor's `sleep(interval)` is no call of this model: a schedule polls the supervisor
    -- wherever the interval may have passed, and every theorem holds for all of them.
    unfoldable pub race : List Turn → Activity S → Cell S → Option (Winner × Cell S)
    race [] activity c = none
    race (task_polled ∷ turns) activity c = elim (activity []) [
      | returns r ↦ some (returned r, c)
      | panics payload ↦ some (panicked payload, c)
      | acts f ↦ race turns (resumed c activity) (f c)
    ]
    race (supervisor_polled ∷ turns) activity c = after_turn (race turns activity) (supervise c)

    abbrev settle_winner : Option (Winner × Cell S) → Option (Attempt S)
    settle_winner none = none
    settle_winner (some (winner, c)) = some (settle winner c.store)

    -- From the context on: race the invocation, and settle.
    abbrev run_request :
        (ExecutionRequest S → Activity S)
        → List Turn
        → TaskExecutor S
        → ClaimedTask
        → Result (TaskContext × JsonObject) Error × S
        → Option (Attempt S)
    run_request service turns executor task (ok (ctx, cache), s) = settle_winner (
        race turns (service (record { context = ctx; input = task.params; executor = executor }))
          (record { store = s; checkpoint_cache = cache }))
    run_request service turns executor task (err (Error.invalid_task_headers m), s) =
        some (fail_with (serialize_error rendering (Error.invalid_task_headers m)) s)
    run_request service turns executor task (err Error.lease_lost, s) = some (lost_lease s)
    run_request service turns executor task (err e, s) = some (dropped e s)

    -- After the first supervision call.
    abbrev start_request :
        (ExecutionRequest S → Activity S)
        → List Turn
        → TaskExecutor S
        → ClaimedTask
        → Result RunSupervision Error × S
        → Option (Attempt S)
    start_request service turns executor task (ok RunSupervision.running, s) =
        run_request service turns executor task (new_context db queue_name task s)
    start_request service turns executor task (ok supervision, s) = some (finished_by supervision s)
    start_request service turns executor task (err e, s) = some (dropped e s)

module _ {S : Type 0} (db : Database S) (rendering : Rendering)
    (service : ExecutionRequest S → Activity S) (queue_name : Str)
    (registry : List (Str × TaskExecutor S)) where
  abbrev unsupported : ClaimedTask → Error
  unsupported task = Error.other (
      format "database returned unsupported task {:?} to capability-filtered worker"
        (Argument.debug task.task_name ∷ []))

  -- One attempt under a schedule; `none` while the schedule leaves it running.
  unfoldable pub execute_task : ClaimedTask → ℕ → List Turn → S → Option (Attempt S)
  execute_task task lease_seconds turns s = elim (lookup_executor task.task_name registry) [
    | none ↦ some (dropped (unsupported task) s)
    | some executor ↦
        start_request db rendering queue_name task.run_id lease_seconds service turns executor task
          (supervise_run db queue_name task.run_id (some lease_seconds) s)
  ]
