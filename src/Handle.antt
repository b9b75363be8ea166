-- ===== src/Handle.antt =====
-- src/task.rs, TaskHandle, with the queue operations of src/queue.rs that it calls. The pool is the
-- database; the variants on a caller's transaction make the same calls.
pub mod Fencing
use steda.Prelude.{ℕ, Option, none, some}
use steda.Text.{Str}
use steda.Duration.{Duration}
use steda.Identifiers.{TaskId, RunId}
use steda.Error.{Error, Result, ok, err, ok_or}
use steda.Types.{TaskResultSnapshot}
use steda.World.{M, ◌>>=◌, ◌>>◌, pure, lift, call, Database, Clock}
use steda.Run.{Run, total}
use steda.Run
use steda.Task.{Codec, TaskRef, TaskSnapshot, decode_snapshot, decode_result}
use steda.Db.{fetch_task_result_snapshot, await_task_result_snapshot}

-- The name of the handle's queue, and the durable reference.
pub record TaskHandle : Type 0 where
  pub queue : Str
  pub task_ref : TaskRef

-- `Option::map(decode_snapshot).transpose()`.
abbrev decode_optional :
    {T : Type 0} → Codec T → Option TaskResultSnapshot → Result (Option (TaskSnapshot T)) Error
decode_optional codec none = ok none
decode_optional codec (some raw) = elim (decode_snapshot codec raw) [
  | ok snapshot ↦ ok (some snapshot)
  | err e ↦ err e
]

module _ {S : Type 0} (db : Database S) where
  unfoldable pub ensure_task_ref : Str → Str → TaskId → M S (Unit {0})
  ensure_task_ref queue task_name task_id = do
    snapshot ← fetch_task_result_snapshot db queue task_name task_id
    present ← lift (ok_or snapshot (Error.task_not_found task_id))
    pure tt

  unfoldable pub cancel_task : Str → TaskId → M S (Unit {0})
  cancel_task queue task_id = call (db.cancel_task queue task_id)

  unfoldable pub retry_task : Str → TaskId → M S RunId
  retry_task queue task_id = call (db.retry_task queue task_id)

  unfoldable pub snapshot : {T : Type 0} → Codec T → TaskHandle → M S (Option (TaskSnapshot T))
  snapshot codec handle = do
    raw ←
        fetch_task_result_snapshot db handle.queue handle.task_ref.task_name handle.task_ref.task_id
    lift (decode_optional codec raw)

  unfoldable pub cancel : TaskHandle → M S (Unit {0})
  unfolding ensure_task_ref cancel_task
  cancel handle = do
    ensure_task_ref handle.queue handle.task_ref.task_name handle.task_ref.task_id
    cancel_task handle.queue handle.task_ref.task_id

  unfoldable pub retry : TaskHandle → M S RunId
  unfolding ensure_task_ref retry_task
  retry handle = do
    ensure_task_ref handle.queue handle.task_ref.task_name handle.task_ref.task_id
    retry_task handle.queue handle.task_ref.task_id

  -- `result` passes no timeout to it, `result_with_timeout` one; `fuel` bounds the polling.
  unfoldable pub result_inner :
      {T : Type 0} → Clock S → Codec T → ℕ → TaskHandle → Option Duration → Run S T
  result_inner clock codec fuel handle timeout =
      Run.◌>>=◌
        (await_task_result_snapshot db clock fuel handle.queue handle.task_ref.task_name
          handle.task_ref.task_id timeout)
        λ raw. Run.lift (decode_result codec raw)
