-- ===== src/Executor/Completion.antt =====
-- src/executor.rs: a whole attempt counts itself as completed only on the database's word.
use steda.Prelude.{ℕ, Option, none, some, List, [], ◌∷◌, ◌≡◌, arith, refl, ap}
use steda.Text.{Str}
use steda.Types.{ClaimedTask}
use steda.Json.{Json, JsonObject}
use steda.Context.{TaskContext, Cell, new_context}
use steda.Error.{Error, Result, ok, err}
use steda.World.{Database}
use steda.Identifiers.{RunId}
use steda.Db.{RunSupervision, supervise_run}
use steda.Metrics.{ExecutionOutcome}
use steda.Metrics.Accounting.{finishes}
use steda.Executor.{
  Attempt, Rendering, serialize_error, Winner, supervised, settle_winner, run_request,
  start_request, execute_task, race, lookup_executor, TaskExecutor, Activity, Poll, resumed,
  returned, panicked, ExecutionRequest, Turn, unsupported, dropped, returns, panics, acts,
  task_polled, supervisor_polled,
}
use steda.Executor.Authority.{
  SaysCompleted, supervise_run-SaysCompleted, settle-SaysCompleted, fail_with-ne-completed,
}

module _ {S : Type 0} (db : Database S) (queue_name : Str) (run_id : RunId)
    (rendering : Rendering) where
  abbrev Told : S → Type 0
  Told t = SaysCompleted db queue_name run_id t

  module _ (lease_seconds : ℕ) where
    -- If supervision wins the race with a completed run, the database has said so.
    race-SaysCompleted :
        (turns : List Turn) (activity : Activity S) (c d : Cell S)
        → race db rendering queue_name run_id lease_seconds turns activity c
          ≡ some (supervised RunSupervision.completed, d)
        → Told d.store
    unfolding race
    race-SaysCompleted [] activity c d h = cc
    race-SaysCompleted (task_polled ∷ turns) activity c d h =
        polled (activity []) h (λ f e. race-SaysCompleted turns (resumed c activity) (f c) d e)
      where
        left : Poll S Json → Option (Winner × Cell S)
        left p = elim p [
          | returns r ↦ some (returned r, c)
          | panics payload ↦ some (panicked payload, c)
          | acts f ↦
              race db rendering queue_name run_id lease_seconds turns (resumed c activity) (f c)
        ]

        polled :
            (p : Poll S Json)
            → left p ≡ some (supervised RunSupervision.completed, d)
            → ((f : Cell S → Cell S)
                → race db rendering queue_name run_id lease_seconds turns (resumed c activity) (f c)
                  ≡ some (supervised RunSupervision.completed, d)
                → Told d.store)
            → Told d.store
        polled (returns r) e later = cc
        polled (panics m) e later = cc
        polled (acts f) e later = later f e
    race-SaysCompleted (supervisor_polled ∷ turns) activity c d h =
        go (supervise_run db queue_name run_id (some lease_seconds) c.store) refl
          (race-SaysCompleted turns activity)
      where
        go :
            (p : Result RunSupervision Error × S)
            → supervise_run db queue_name run_id (some lease_seconds) c.store ≡ p
            → ((b e : Cell S)
                → race db rendering queue_name run_id lease_seconds turns activity b
                  ≡ some (supervised RunSupervision.completed, e)
                → Told e.store)
            → Told d.store
        go (ok RunSupervision.running, u) q later = later (record c { store = u }) d (ground arith)
        go (ok RunSupervision.completed, u) q later =
            supervise_run-SaysCompleted db queue_name run_id (some lease_seconds) c.store d.store
              (ground arith)
        go (ok RunSupervision.failed, u) q later = absurd (ground arith)
        go (ok RunSupervision.cancelled, u) q later = absurd (ground arith)
        go (ok RunSupervision.suspended, u) q later = absurd (ground arith)
        go (ok RunSupervision.lease_lost, u) q later = absurd (ground arith)
        go (err x, u) q later = absurd (ground arith)

    module _ (service : ExecutionRequest S → Activity S) (turns : List Turn)
        (executor : TaskExecutor S) (task : ClaimedTask) where
      winner-SaysCompleted :
          (o : Option (Winner × Cell S)) {r : Result (Unit {0}) Error} {t : S}
          → ((d : Cell S) → o ≡ some (supervised RunSupervision.completed, d) → Told d.store)
          → settle_winner db rendering queue_name run_id lease_seconds o
            ≡ some (r, finishes ExecutionOutcome.completed, t)
          → Told t
      winner-SaysCompleted none told h = cc
      winner-SaysCompleted (some (w, c)) {r} {t} told h =
          settle-SaysCompleted db queue_name run_id rendering w c.store {r = r} {t = t}
            (λ e. told c (ap (λ v. some (v, c)) e)) (cc)

      request-SaysCompleted :
          (a : Result (TaskContext × JsonObject) Error × S) {r : Result (Unit {0}) Error} {t : S}
          → run_request db rendering queue_name run_id lease_seconds service turns executor task a
            ≡ some (r, finishes ExecutionOutcome.completed, t)
          → Told t
      request-SaysCompleted (ok (ctx, cache), s) h =
          winner-SaysCompleted _ (λ d e. race-SaysCompleted turns _ _ d e) h
      request-SaysCompleted (err (Error.invalid_task_headers m), s) {r} {t} h = absurd (
          fail_with-ne-completed db queue_name run_id rendering
            (serialize_error rendering (Error.invalid_task_headers m)) s {r = r} {t = t} (cc))
      request-SaysCompleted (err Error.suspended, s) h = cc
      request-SaysCompleted (err Error.cancelled, s) h = cc
      request-SaysCompleted (err Error.failed_run, s) h = cc
      request-SaysCompleted (err Error.lease_lost, s) h = cc
      request-SaysCompleted (err Error.idempotency_conflict, s) h = cc
      request-SaysCompleted (err Error.missing_queue_name, s) h = cc
      request-SaysCompleted (err (Error.database _), s) h = cc
      request-SaysCompleted (err (Error.invalid_options _), s) h = cc
      request-SaysCompleted (err (Error.queue_name_too_long _ _), s) h = cc
      request-SaysCompleted (err (Error.task_not_found _), s) h = cc
      request-SaysCompleted (err (Error.task_name_mismatch _ _ _), s) h = cc
      request-SaysCompleted (err (Error.task_failed _), s) h = cc
      request-SaysCompleted (err (Error.timeout _), s) h = cc
      request-SaysCompleted (err (Error.serialization _), s) h = cc
      request-SaysCompleted (err (Error.task _), s) h = cc
      request-SaysCompleted (err (Error.other _), s) h = cc

      start-SaysCompleted :
          (s : S) (a : Result RunSupervision Error × S) {r : Result (Unit {0}) Error} {t : S}
          → supervise_run db queue_name run_id (some lease_seconds) s ≡ a
          → start_request db rendering queue_name run_id lease_seconds service turns executor task a
            ≡ some (r, finishes ExecutionOutcome.completed, t)
          → Told t
      start-SaysCompleted s (ok RunSupervision.running, u) q h =
          request-SaysCompleted (new_context db queue_name task u) h
      start-SaysCompleted s (ok RunSupervision.completed, u) {r} {t} q h =
          supervise_run-SaysCompleted db queue_name run_id (some lease_seconds) s t (cc)
      start-SaysCompleted s (ok RunSupervision.failed, u) q h = cc
      start-SaysCompleted s (ok RunSupervision.cancelled, u) q h = cc
      start-SaysCompleted s (ok RunSupervision.suspended, u) q h = cc
      start-SaysCompleted s (ok RunSupervision.lease_lost, u) q h = cc
      start-SaysCompleted s (err e, u) q h = cc

-- An attempt that counts itself as completed ends with a call in which the database said so of this
-- very run: it accepted the run's output, or supervision reported the run as completed.
pub execute_task-SaysCompleted :
    {S : Type 0} (db : Database S) (rendering : Rendering)
    (service : ExecutionRequest S → Activity S) (queue_name : Str)
    (registry : List (Str × TaskExecutor S)) (task : ClaimedTask) (lease_seconds : ℕ)
    (turns : List Turn) (s : S) {r : Result (Unit {0}) Error} {t : S}
    → execute_task db rendering service queue_name registry task lease_seconds turns s
      ≡ some (r, finishes ExecutionOutcome.completed, t)
    → SaysCompleted db queue_name task.run_id t
unfolding execute_task
execute_task-SaysCompleted db rendering service queue_name registry task lease_seconds turns s {r}
      {t} =
    elim (lookup_executor task.task_name registry)
      as (λ o.
        ◌≡◌ {A = Option (Attempt _)}
          (elim o [
            | none ↦ some (dropped (unsupported db rendering service queue_name registry task) s)
            | some executor ↦
                start_request db rendering queue_name task.run_id lease_seconds service turns
                  executor task (supervise_run db queue_name task.run_id (some lease_seconds) s)
          ])
          (some (r, finishes ExecutionOutcome.completed, t))
        → SaysCompleted db queue_name task.run_id t) [
          | none ↦ λ h. cc
          | some executor ↦ λ h.
              start-SaysCompleted db queue_name task.run_id rendering lease_seconds service turns
                executor task s (supervise_run db queue_name task.run_id (some lease_seconds) s)
                refl h
        ]
