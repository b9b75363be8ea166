-- ===== src/Context.antt =====
-- src/context.rs: the durable context of one claimed attempt. `Cell` is the shared mutable part
-- behind its clones, the checkpoint cache, next to the outside state. Calls under one checkpoint
-- name are serialized by a lock; each call here is one such critical section.
pub mod Steps
pub mod Immutable
pub mod Sleeps
pub mod Waits
use steda.Prelude.{ℕ, Bool, Option, none, some, List, [], ◌∷◌, ◌++◌, if◌then◌else◌, not}
use steda.Text.{Str, codes, str_eq}
use steda.Duration.{Duration}
use steda.Json.{Json, JsonObject, empty, insert, get}
use steda.Identifiers.{TaskId, RunId, Uuid}
use steda.Error.{ok_or, Error, Result, ok, err, map_err, literal, format, Argument}
use steda.Types.{ClaimedTask, TaskResultSnapshot}
use steda.World.{M, Procedure, call, call_mapped, Database, Clock, Timestamp}
use steda.World
use steda.Task.{Codec, encode, decode, TaskRef, decode_result}
use steda.Run.{Run, after, ◌>>=◌, ◌>>◌, pure, fail, lift, total}
use steda.Names.{
  step_prefix, keyed_step_prefix, sleep_prefix, workflow_storage_name, keyed_workflow_storage_name,
  task_wait_name,
}
use steda.Db.{await_task_result_snapshot}

-- The immutable part of a context; the headers default to no entry.
pub record TaskContext : Type 0 where
  pub queue_name : Str
  pub task : ClaimedTask
  pub headers : JsonObject

pub record Cell (S : Type 0) : Type 0 where
  pub store : S
  pub checkpoint_cache : JsonObject

-- Code on the outside state alone.
abbrev pub on_store : {S A : Type 0} → M S A → M (Cell S) A
on_store m c = let (r, t) = m c.store in (r, record c { store = t })

-- Collecting the rows of checkpoints into the cache.
unfoldable pub cache_from_rows : JsonObject → List (Str × Json) → JsonObject
cache_from_rows cache [] = cache
cache_from_rows cache ((name, state) ∷ rows) = cache_from_rows (insert name state cache) rows

abbrev pub headers_or_default : Option JsonObject → JsonObject
headers_or_default none = empty
headers_or_default (some m) = m

pub data ScheduleOutcome : Type 0 where
  ready suspended cancelled : ScheduleOutcome

unfoldable pub schedule_outcome : Str → Result ScheduleOutcome Error
schedule_outcome outcome =
    if str_eq outcome (codes "ready")
    then ok ready
    else if str_eq outcome (codes "suspended")
    then ok suspended
    else if str_eq outcome (codes "cancelled")
    then ok cancelled
    else err (
        Error.other (
          format "PostgreSQL returned unknown schedule outcome {other:?}"
            (Argument.debug outcome ∷ [])))

-- What the caller of a sleep gets.
abbrev pub sleep_result : ScheduleOutcome → Result (Unit {0}) Error
sleep_result ready = ok tt
sleep_result suspended = err Error.suspended
sleep_result cancelled = err Error.cancelled

module _ {S : Type 0} (db : Database S) where
  -- `TaskContext::new`: the context and the cache that it starts with.
  unfoldable pub new_context : Str → ClaimedTask → M S (TaskContext × JsonObject)
  new_context queue_name task =
      World.◌>>=◌ (call_mapped (db.get_task_checkpoint_states queue_name task.task_id task.run_id))
        λ rows. World.pure (
          record {
            queue_name = queue_name;
            task = task;
            headers = headers_or_default task.headers;
          },
          cache_from_rows empty rows,
        )

  module _ (ctx : TaskContext) where
    unfoldable pub cached_checkpoint : Str → Cell S → Option Json
    cached_checkpoint name c = get name c.checkpoint_cache

    unfoldable pub cache_checkpoint : Str → Json → Cell S → Cell S
    cache_checkpoint name value c = record c {
      checkpoint_cache = insert name value c.checkpoint_cache;
    }

    unfoldable pub persist_checkpoint : Str → Json → Run (Cell S) (Json × Bool)
    unfolding cache_checkpoint
    persist_checkpoint name value = do
      row ← total (
          on_store (
            call_mapped (
              db.set_task_checkpoint_state ctx.queue_name ctx.task.task_id name value
                ctx.task.run_id)))
      λ c. some (ok row, cache_checkpoint name row.0 c)

    unfoldable pub database_time : Run (Cell S) Timestamp
    database_time = total (on_store (call db.current_time))

    unfoldable pub schedule_run : Timestamp → Run (Cell S) ScheduleOutcome
    schedule_run wake_at = do
      outcome ←
          total (on_store (call_mapped (db.schedule_run ctx.queue_name ctx.task.run_id wake_at)))
      lift (schedule_outcome outcome)

    module _ {T : Type 0} (codec : Codec T) where
      -- A checkpoint that is not cached: run the body, and keep what the database keeps.
      unfoldable pub execute_checkpoint : Str → Run (Cell S) T → Run (Cell S) T
      execute_checkpoint name body = do
        value ← body
        serialized ← lift (encode codec value)
        row ← persist_checkpoint name serialized
        lift (if row.1 then ok value else decode codec row.0)

      unfoldable pub checkpoint : Str → Run (Cell S) T → Run (Cell S) T
      unfolding execute_checkpoint cached_checkpoint
      checkpoint name body c = elim (cached_checkpoint name c) [
        | some state ↦ some (decode codec state, c)
        | none ↦ execute_checkpoint name body c
      ]

      unfoldable pub step : Str → Run (Cell S) T → Run (Cell S) T
      step name body = do
        storage_name ← lift (workflow_storage_name step_prefix name)
        checkpoint storage_name body

      unfoldable pub step_keyed : Str → Str → Run (Cell S) T → Run (Cell S) T
      step_keyed name key body = do
        storage_name ← lift (keyed_workflow_storage_name keyed_step_prefix name key)
        checkpoint storage_name body

-- What the times of a sleep need of the time crate: how they are serialized, and how a duration is
-- converted and added.
pub record Calendar : Type 0 where
  pub timestamps : Codec Timestamp
  pub signed : Duration → Result Duration Str
  pub checked_add : Timestamp → Duration → Option Timestamp

module _ {S : Type 0} (db : Database S) (calendar : Calendar) (ctx : TaskContext) where
  -- A wake time that is not cached, as the database commits it.
  unfoldable pub commit_wake_time : Str → Timestamp → Run (Cell S) Timestamp
  commit_wake_time name wake_at = do
    serialized ← lift (encode calendar.timestamps wake_at)
    row ← persist_checkpoint db ctx name serialized
    lift (decode calendar.timestamps row.0)

  -- The wake time of a sleep: the committed one, or the given one as it is committed.
  unfoldable pub wake_time : Str → Timestamp → Run (Cell S) Timestamp
  unfolding cached_checkpoint
  wake_time name wake_at c = elim (cached_checkpoint db ctx name c) [
    | some cached ↦ some (decode calendar.timestamps cached, c)
    | none ↦ commit_wake_time name wake_at c
  ]

  -- `sleep_until_inner`, to which `sleep_until` only passes on.
  unfoldable pub sleep_until : Str → Timestamp → Run (Cell S) (Unit {0})
  unfolding wake_time
  sleep_until sleep wake_at = do
    name ← lift (workflow_storage_name sleep_prefix sleep)
    actual_wake_at ← wake_time name wake_at
    outcome ← schedule_run db ctx actual_wake_at
    lift (sleep_result outcome)

  unfoldable pub sleep_for : Str → Duration → Run (Cell S) (Unit {0})
  sleep_for sleep duration = do
    duration ← lift (
        map_err (λ e. Error.invalid_options (format "{}" (Argument.display e ∷ [])))
          (calendar.signed duration))
    now ← database_time db ctx
    wake_at ← lift (
        ok_or (calendar.checked_add now duration)
          (Error.invalid_options (literal "sleep wake time is out of range")))
    sleep_until sleep wake_at

-- The persisted payload of a completed wait.
pub record TaskWaitCheckpoint (T : Type 0) : Type 0 where
  pub task_name : Str
  pub output : T

-- A wait on the outside state, under the cell; `fuel` bounds its rounds.
abbrev pub on_store_run : {S A : Type 0} → Run S A → Run (Cell S) A
on_store_run m c = elim (m c.store) [ none ↦ none | some (r, t) ↦ some (r, record c { store = t }) ]

abbrev pub same_queue : Error
same_queue = Error.invalid_options (
    literal
      "TaskContext::await_task cannot wait on tasks in the same queue because this can deadlock workers. Spawn the child in a different queue.")

module _ {S T : Type 0} (db : Database S) (clock : Clock S) (display_uuid : Uuid → Str)
    (codec : Codec T) (wait_codec : Codec (TaskWaitCheckpoint T)) (fuel : ℕ)
    (ctx : TaskContext) where
  -- The body of the wait's checkpoint: poll the child, decode its output.
  unfoldable pub wait_body : TaskRef → Option Duration → Run (Cell S) (TaskWaitCheckpoint T)
  wait_body task timeout = do
    snapshot ← on_store_run (
        await_task_result_snapshot db clock fuel task.queue_name task.task_name task.task_id
          timeout)
    output ← lift (decode_result codec snapshot)
    pure (record { task_name = task.task_name; output = output })

  abbrev pub named_output : TaskRef → TaskWaitCheckpoint T → Result T Error
  named_output task saved =
      if not (str_eq saved.task_name task.task_name)
      then err (Error.task_name_mismatch task.task_id task.task_name saved.task_name)
      else ok saved.output

  -- The wait's checkpoint, executed or replayed, and the check of the task's name.
  unfoldable pub saved_wait : TaskRef → Option Duration → Run (Cell S) T
  saved_wait task timeout = do
    saved ←
        checkpoint db ctx wait_codec (task_wait_name display_uuid task.queue_name task.task_id)
          (wait_body task timeout)
    lift (named_output task saved)

  unfoldable pub await_task_ref : TaskRef → Option Duration → Run (Cell S) T
  await_task_ref task timeout =
      if str_eq task.queue_name ctx.queue_name then fail same_queue else saved_wait task timeout
