-- ===== src/Handle/Fencing.antt =====
-- A handle acts only on the task that its reference names.
use steda.Prelude.{ℕ, Option, some, ◌≡◌, ◌≢◌, arith, inl, inr, Bool-cases}
use steda.Text.{str_eq}
use steda.Text.Equality.{eq_of_str_eq}
use steda.Duration.{Duration}
use steda.Json.{Json}
use steda.Error.{Error, ok, err}
use steda.Types.{TaskResultSnapshot}
use steda.World.{Database, Clock, ResultRow}
use steda.Run.{after-eq-ok}
use steda.Task.{Codec, decode}
use steda.Task.Snapshots.{decode_result-ok}
use steda.Db.{fetch_task_result_snapshot, snapshot_from_row, await_task_result_snapshot}
use steda.Handle.{TaskHandle, ensure_task_ref, cancel, retry, result_inner}

module _ {S : Type 0} (db : Database S) (handle : TaskHandle) where
  ensure-mismatch :
      (s u : S) (row : ResultRow)
      → db.get_task_result handle.queue handle.task_ref.task_id s ≡ (ok (some row), u)
      → row.task_name ≢ handle.task_ref.task_name
      → ensure_task_ref db handle.queue handle.task_ref.task_name handle.task_ref.task_id s ≡ (
        err (
            Error.task_name_mismatch handle.task_ref.task_id handle.task_ref.task_name
              row.task_name),
        u,
      )
  unfolding ensure_task_ref fetch_task_result_snapshot snapshot_from_row
  ensure-mismatch s u row q other =
      elim (Bool-cases (str_eq row.task_name handle.task_ref.task_name)) [
        | inl same ↦ absurd (other (eq_of_str_eq _ _ same))
        | inr differ ↦ ground (arith, differ, q)
      ]

  -- Where the database's row for the handle's task has another task name, neither a cancellation nor
  -- a retry is attempted: both fail with the mismatch, in the state that the query left.
  pub mismatch_fails :
      (s u : S) (row : ResultRow)
      → db.get_task_result handle.queue handle.task_ref.task_id s ≡ (ok (some row), u)
      → row.task_name ≢ handle.task_ref.task_name
      → (cancel db handle s ≡ (
        err (
            Error.task_name_mismatch handle.task_ref.task_id handle.task_ref.task_name
              row.task_name),
        u,
      ))
        × (retry db handle s ≡ (
          err (
              Error.task_name_mismatch handle.task_ref.task_id handle.task_ref.task_name
                row.task_name),
          u,
        ))
  unfolding cancel retry
  mismatch_fails s u row q other =
      let e = ensure-mismatch s u row q other in (ground (arith, e), ground (arith, e))

  module _ {T : Type 0} (clock : Clock S) (codec : Codec T) (fuel : ℕ) where
    -- A handle's result is the decoded output of a snapshot of a completed task that the wait returned.
    pub result_inner-ok :
        (timeout : Option Duration) (s u : S) (v : T)
        → result_inner db clock codec fuel handle timeout s ≡ some (ok v, u)
        → (j : Json) × (await_task_result_snapshot db clock fuel handle.queue
              handle.task_ref.task_name handle.task_ref.task_id timeout s
            ≡ some (ok (TaskResultSnapshot.completed j), u))
          × (decode codec j ≡ ok v)
    unfolding result_inner
    result_inner-ok timeout s u v h =
        let (raw, t, e1, e2) =
          after-eq-ok _
            (await_task_result_snapshot db clock fuel handle.queue handle.task_ref.task_name
              handle.task_ref.task_id timeout s)
            h in
        let (j, e3, e4) = decode_result-ok codec raw v (cc) in (j, cc, e4)
