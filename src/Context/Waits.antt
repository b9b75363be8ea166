-- ===== src/Context/Waits.antt =====
-- What a successful wait for another task has seen.
use steda.Prelude.{sym, ◌∙◌, ℕ, ◌≡◌, ◌≢◌, false, Option, some, arith, Bool-cases, inl, inr, ap}
use steda.Text.{Str, str_eq}
use steda.Text.Equality.{eq_of_str_eq, str_eq_refl}
use steda.Duration.{Duration}
use steda.Identifiers.{Uuid}
use steda.Error.{ok}
use steda.Task.{Codec, TaskRef}
use steda.World.{Database, Clock}
use steda.Run.{after-eq-ok}
use steda.Names.{task_wait_name}
use steda.Context.{
  saved_wait, ℕ, TaskContext, Cell, checkpoint, TaskWaitCheckpoint, wait_body, await_task_ref,
}

module _ {S T : Type 0} (db : Database S) (clock : Clock S) (display_uuid : Uuid → Str)
    (codec : Codec T) (wait_codec : Codec (TaskWaitCheckpoint T)) (fuel : ℕ)
    (ctx : TaskContext) where
  await_other :
      (task : TaskRef) (timeout : Option Duration) (c : Cell S)
      → str_eq task.queue_name ctx.queue_name ≡ false
      → await_task_ref db clock display_uuid codec wait_codec fuel ctx task timeout c
        ≡ saved_wait db clock display_uuid codec wait_codec fuel ctx task timeout c
  unfolding await_task_ref
  await_other task timeout c h = ground arith

  -- A wait that returns an output was for a task of another queue, and the output is that of its
  -- wait checkpoint, which carries the task name that the reference expects: a checkpoint saved
  -- under another task name is never returned, on replay neither.
  pub await_task_ref-ok :
      (task : TaskRef) (timeout : Option Duration) (c d : Cell S) (v : T)
      → await_task_ref db clock display_uuid codec wait_codec fuel ctx task timeout c
        ≡ some (ok v, d)
      → (task.queue_name ≢ ctx.queue_name)
        × (saved : TaskWaitCheckpoint T) × (checkpoint db ctx wait_codec
              (task_wait_name display_uuid task.queue_name task.task_id)
              (wait_body db clock display_uuid codec wait_codec fuel ctx task timeout)
              c
            ≡ some (ok saved, d))
        × (saved.task_name ≡ task.task_name)
        × (saved.output ≡ v)
  unfolding await_task_ref saved_wait
  await_task_ref-ok task timeout c d v e =
      elim (Bool-cases (str_eq task.queue_name ctx.queue_name)) [
        | inl same ↦ absurd (ground arith)
        | inr other ↦
            let (saved, c1, e1, h) =
              after-eq-ok _
                (checkpoint db ctx wait_codec
                  (task_wait_name display_uuid task.queue_name task.task_id)
                  (wait_body db clock display_uuid codec wait_codec fuel ctx task timeout) c)
                (sym (await_other task timeout c other) ∙ e) in
            let named = eq_of_str_eq saved.task_name task.task_name in
            (
              λ q. ground (arith, str_eq_refl task.queue_name, ap (str_eq task.queue_name) q),
              saved,
              ground arith,
              ground (arith, named),
              ground (arith, named),
            )
      ]
