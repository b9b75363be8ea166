-- ===== src/Executor/Coherence.antt =====
-- src/executor.rs: an attempt's result agrees with the way that its metrics guard ends.
use steda.Prelude.{ℕ, Option, none, some, List, ◌≡◌, subst, ◌≢◌, Bool-cases, inl, inr}
use steda.Text.{Str}
use steda.Types.{ClaimedTask}
use steda.Json.{Json, JsonObject}
use steda.Context.{TaskContext, Cell, new_context}
use steda.Error.{Error, Result, ok, err}
use steda.World.{Database}
use steda.Identifiers.{RunId}
use steda.Db.{RunSupervision, supervise_run}
use steda.Metrics.{ExecutionOutcome}
use steda.Metrics.Accounting.{End, finishes, drops}
use steda.Executor.{
  Attempt, finished_by, after_failure, Rendering, finish_failure_transition, fail_with, fail_run,
  after_completion, complete_run, after_control, is_control, serialize_error, panic_json, settle,
  Winner, returned, panicked, supervised, unsupervised, settle_winner, run_request, start_request,
  execute_task, lookup_executor, unsupported, dropped, TaskExecutor, Activity, ExecutionRequest,
  Turn,
}

-- The result of an attempt and the end of its guard belong together: an attempt that finishes with
-- a lost lease returns `Error::LeaseLost`, one that finishes otherwise succeeds, and one whose guard
-- is dropped fails.
pub data IsCoherent : Result (Unit {0}) Error → End → Type 0 where
  handled :
      (o : ExecutionOutcome) → o ≢ ExecutionOutcome.lease_lost → IsCoherent (ok tt) (finishes o)
  lost : IsCoherent (err Error.lease_lost) (finishes ExecutionOutcome.lease_lost)
  unhandled : (e : Error) → IsCoherent (err e) drops

abbrev Coherent : {S : Type 0} → Attempt S → Type 0
Coherent (r, e, s) = IsCoherent r e

finished_by-Coherent : {S : Type 0} (v : RunSupervision) (s : S) → Coherent (finished_by v s)
finished_by-Coherent RunSupervision.running s = unhandled _
finished_by-Coherent RunSupervision.completed s = handled _ cc
finished_by-Coherent RunSupervision.failed s = handled _ cc
finished_by-Coherent RunSupervision.cancelled s = handled _ cc
finished_by-Coherent RunSupervision.suspended s = handled _ cc
finished_by-Coherent RunSupervision.lease_lost s = lost

module _ {S : Type 0} (db : Database S) (rendering : Rendering) (queue_name : Str)
    (run_id : RunId) where
  after_failure-Coherent :
      (a : Result RunSupervision Error × S)
      → Coherent (after_failure db rendering queue_name run_id a)
  after_failure-Coherent (ok RunSupervision.cancelled, s) = handled _ cc
  after_failure-Coherent (ok RunSupervision.running, s) = handled _ cc
  after_failure-Coherent (ok RunSupervision.completed, s) = handled _ cc
  after_failure-Coherent (ok RunSupervision.failed, s) = handled _ cc
  after_failure-Coherent (ok RunSupervision.suspended, s) = handled _ cc
  after_failure-Coherent (ok RunSupervision.lease_lost, s) = handled _ cc
  after_failure-Coherent (err e, s) = unhandled e

  finish_failure_transition-Coherent :
      (a : Result (Unit {0}) Error × S)
      → Coherent (finish_failure_transition db rendering queue_name run_id a)
  unfolding finish_failure_transition
  finish_failure_transition-Coherent (ok tt, s) =
      after_failure-Coherent (supervise_run db queue_name run_id none s)
  finish_failure_transition-Coherent (err Error.suspended, s) = unhandled _
  finish_failure_transition-Coherent (err Error.cancelled, s) = handled _ cc
  finish_failure_transition-Coherent (err Error.failed_run, s) = handled _ cc
  finish_failure_transition-Coherent (err Error.lease_lost, s) = lost
  finish_failure_transition-Coherent (err Error.idempotency_conflict, s) = unhandled _
  finish_failure_transition-Coherent (err Error.missing_queue_name, s) = unhandled _
  finish_failure_transition-Coherent (err (Error.database _), s) = unhandled _
  finish_failure_transition-Coherent (err (Error.invalid_options _), s) = unhandled _
  finish_failure_transition-Coherent (err (Error.queue_name_too_long _ _), s) = unhandled _
  finish_failure_transition-Coherent (err (Error.task_not_found _), s) = unhandled _
  finish_failure_transition-Coherent (err (Error.task_name_mismatch _ _ _), s) = unhandled _
  finish_failure_transition-Coherent (err (Error.task_failed _), s) = unhandled _
  finish_failure_transition-Coherent (err (Error.timeout _), s) = unhandled _
  finish_failure_transition-Coherent (err (Error.invalid_task_headers _), s) = unhandled _
  finish_failure_transition-Coherent (err (Error.serialization _), s) = unhandled _
  finish_failure_transition-Coherent (err (Error.task _), s) = unhandled _
  finish_failure_transition-Coherent (err (Error.other _), s) = unhandled _

  fail_with-Coherent :
      (failure : Json) (s : S) → Coherent (fail_with db rendering queue_name run_id failure s)
  unfolding fail_with
  fail_with-Coherent failure s =
      finish_failure_transition-Coherent (fail_run db rendering queue_name run_id failure s)

  after_completion-Coherent :
      (a : Result (Unit {0}) Error × S)
      → Coherent (after_completion db rendering queue_name run_id a)
  after_completion-Coherent (ok tt, s) = handled _ cc
  after_completion-Coherent (err Error.suspended, s) = unhandled _
  after_completion-Coherent (err Error.cancelled, s) = handled _ cc
  after_completion-Coherent (err Error.failed_run, s) = unhandled _
  after_completion-Coherent (err Error.lease_lost, s) = lost
  after_completion-Coherent (err Error.idempotency_conflict, s) = unhandled _
  after_completion-Coherent (err Error.missing_queue_name, s) = unhandled _
  after_completion-Coherent (err (Error.database _), s) = unhandled _
  after_completion-Coherent (err (Error.invalid_options _), s) = unhandled _
  after_completion-Coherent (err (Error.queue_name_too_long _ _), s) = unhandled _
  after_completion-Coherent (err (Error.task_not_found _), s) = unhandled _
  after_completion-Coherent (err (Error.task_name_mismatch _ _ _), s) = unhandled _
  after_completion-Coherent (err (Error.task_failed _), s) = unhandled _
  after_completion-Coherent (err (Error.timeout _), s) = unhandled _
  after_completion-Coherent (err (Error.invalid_task_headers _), s) = unhandled _
  after_completion-Coherent (err (Error.serialization _), s) = unhandled _
  after_completion-Coherent (err (Error.task _), s) = unhandled _
  after_completion-Coherent (err (Error.other _), s) = unhandled _

  after_control-Coherent :
      (e : Error) (a : Result RunSupervision Error × S)
      → Coherent (after_control db rendering queue_name run_id e a)
  after_control-Coherent e (ok RunSupervision.running, s) = fail_with-Coherent _ s
  after_control-Coherent e (ok RunSupervision.completed, s) =
      finished_by-Coherent RunSupervision.completed s
  after_control-Coherent e (ok RunSupervision.failed, s) =
      finished_by-Coherent RunSupervision.failed s
  after_control-Coherent e (ok RunSupervision.cancelled, s) =
      finished_by-Coherent RunSupervision.cancelled s
  after_control-Coherent e (ok RunSupervision.suspended, s) =
      finished_by-Coherent RunSupervision.suspended s
  after_control-Coherent e (ok RunSupervision.lease_lost, s) =
      finished_by-Coherent RunSupervision.lease_lost s
  after_control-Coherent e (err x, s) = unhandled x

  settle-Coherent : (w : Winner) (s : S) → Coherent (settle db rendering queue_name run_id w s)
  unfolding settle
  settle-Coherent (returned (ok output)) s =
      after_completion-Coherent (complete_run db rendering queue_name run_id output s)
  settle-Coherent (returned (err e)) s =
      elim (Bool-cases (is_control db rendering queue_name run_id e)) [
        | inl p ↦ rw p (after_control-Coherent e (supervise_run db queue_name run_id none s))
        | inr p ↦ rw p (fail_with-Coherent (serialize_error rendering e) s)
      ]
  settle-Coherent (panicked payload) s = fail_with-Coherent (panic_json payload) s
  settle-Coherent (supervised v) s = finished_by-Coherent v s
  settle-Coherent (unsupervised e) s = unhandled e

  -- What holds of an attempt if it ends.
  abbrev IfEnded : Option (Attempt S) → Type 0
  IfEnded none = Unit
  IfEnded (some a) = Coherent a

  module _ (lease_seconds : ℕ) (service : ExecutionRequest S → Activity S) (turns : List Turn)
      (executor : TaskExecutor S) (task : ClaimedTask) where
    settle_winner-Coherent :
        (o : Option (Winner × Cell S))
        → IfEnded (settle_winner db rendering queue_name run_id lease_seconds o)
    settle_winner-Coherent none = tt
    settle_winner-Coherent (some (w, c)) = settle-Coherent w c.store

    run_request-Coherent :
        (a : Result (TaskContext × JsonObject) Error × S)
        → IfEnded
            (run_request db rendering queue_name run_id lease_seconds service turns executor task a)
    run_request-Coherent (ok (ctx, cache), s) = settle_winner-Coherent _
    run_request-Coherent (err Error.suspended, s) = unhandled _
    run_request-Coherent (err Error.cancelled, s) = unhandled _
    run_request-Coherent (err Error.failed_run, s) = unhandled _
    run_request-Coherent (err Error.lease_lost, s) = lost
    run_request-Coherent (err Error.idempotency_conflict, s) = unhandled _
    run_request-Coherent (err Error.missing_queue_name, s) = unhandled _
    run_request-Coherent (err (Error.database _), s) = unhandled _
    run_request-Coherent (err (Error.invalid_options _), s) = unhandled _
    run_request-Coherent (err (Error.queue_name_too_long _ _), s) = unhandled _
    run_request-Coherent (err (Error.task_not_found _), s) = unhandled _
    run_request-Coherent (err (Error.task_name_mismatch _ _ _), s) = unhandled _
    run_request-Coherent (err (Error.task_failed _), s) = unhandled _
    run_request-Coherent (err (Error.timeout _), s) = unhandled _
    run_request-Coherent (err (Error.invalid_task_headers _), s) = fail_with-Coherent _ s
    run_request-Coherent (err (Error.serialization _), s) = unhandled _
    run_request-Coherent (err (Error.task _), s) = unhandled _
    run_request-Coherent (err (Error.other _), s) = unhandled _

    start_request-Coherent :
        (a : Result RunSupervision Error × S)
        → IfEnded (
            start_request db rendering queue_name run_id lease_seconds service turns executor task
              a)
    start_request-Coherent (ok RunSupervision.running, s) =
        run_request-Coherent (new_context db queue_name task s)
    start_request-Coherent (ok RunSupervision.completed, s) =
        finished_by-Coherent RunSupervision.completed s
    start_request-Coherent (ok RunSupervision.failed, s) =
        finished_by-Coherent RunSupervision.failed s
    start_request-Coherent (ok RunSupervision.cancelled, s) =
        finished_by-Coherent RunSupervision.cancelled s
    start_request-Coherent (ok RunSupervision.suspended, s) =
        finished_by-Coherent RunSupervision.suspended s
    start_request-Coherent (ok RunSupervision.lease_lost, s) =
        finished_by-Coherent RunSupervision.lease_lost s
    start_request-Coherent (err e, s) = unhandled e

module _ {S : Type 0} (db : Database S) (rendering : Rendering)
    (service : ExecutionRequest S → Activity S) (queue_name : Str)
    (registry : List (Str × TaskExecutor S)) where
  execute_task-IfEnded :
      (task : ClaimedTask) (lease_seconds : ℕ) (turns : List Turn) (s : S)
      → IfEnded db rendering queue_name task.run_id
          (execute_task db rendering service queue_name registry task lease_seconds turns s)
  unfolding execute_task
  execute_task-IfEnded task lease_seconds turns s =
      elim (lookup_executor task.task_name registry)
        as (λ o. IfEnded db rendering queue_name task.run_id (elim o [
          | none ↦ some (dropped (unsupported db rendering service queue_name registry task) s)
          | some executor ↦
              start_request db rendering queue_name task.run_id lease_seconds service turns executor
                task (supervise_run db queue_name task.run_id (some lease_seconds) s)
        ])) [
          | none ↦ unhandled _
          | some executor ↦
              start_request-Coherent db rendering queue_name task.run_id lease_seconds service turns
                executor task (supervise_run db queue_name task.run_id (some lease_seconds) s)
        ]

  -- Whatever the database answers, the task does and the schedule is, an attempt that ends has
  -- counted itself as what it returned: it returned `Error::LeaseLost` if it counted a lost lease, it
  -- succeeded if it counted another outcome, and it failed if its guard was dropped uncounted.
  pub execute_task-Coherent :
      (task : ClaimedTask) (lease_seconds : ℕ) (turns : List Turn) (s : S)
      {r : Result (Unit {0}) Error} {e : End} {t : S}
      → execute_task db rendering service queue_name registry task lease_seconds turns s
        ≡ some (r, e, t)
      → IsCoherent r e
  execute_task-Coherent task lease_seconds turns s h =
      subst (IfEnded db rendering queue_name task.run_id) h
        (execute_task-IfEnded task lease_seconds turns s)
