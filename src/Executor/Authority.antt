-- ===== src/Executor/Authority.antt =====
-- src/executor.rs: an attempt counts itself as completed only on the database's word.
use steda.Prelude.{
  ℕ, Bool, true, false, Option, none, ◌≡◌, arith, refl, subst, ap, ◌≢◌, Bool-cases, inl, inr,
}
use steda.Text.{Str, codes}
use steda.Json.{Json}
use steda.Error.{Error, Result, ok, err, SqlxError}
use steda.World.{Database}
use steda.Identifiers.{RunId}
use steda.Db.{RunSupervision, supervise_run}
use steda.Db.Rows.{supervision_from_outcome_iff}
use steda.Metrics.{ExecutionOutcome}
use steda.Metrics.Accounting.{finishes}
use steda.Executor.{
  finished_by, after_failure, Rendering, finish_failure_transition, fail_with, fail_run,
  after_completion, complete_run, after_control, is_control, serialize_error, panic_json, settle,
  Winner, returned, panicked, supervised, unsupervised,
}

module _ {S : Type 0} (db : Database S) (queue_name : Str) (run_id : RunId) where
  -- A call of the database that left this state has said that the run is completed.
  pub data SaysCompleted (t : S) : Type 0 where
    accepted :
        (output : Json) (u : S)
        → db.complete_run queue_name run_id output u ≡ (ok true, t)
        → SaysCompleted t
    observed :
        (renew : Option ℕ) (u : S)
        → db.supervise_run queue_name run_id renew u ≡ (ok (codes "completed"), t)
        → SaysCompleted t

  pub supervise_run-SaysCompleted :
      (renew : Option ℕ) (s t : S)
      → supervise_run db queue_name run_id renew s ≡ (ok RunSupervision.completed, t)
      → SaysCompleted t
  unfolding supervise_run
  supervise_run-SaysCompleted renew s t e = go (db.supervise_run queue_name run_id renew s) refl
    where
      go :
          (p : Result Str SqlxError × S)
          → db.supervise_run queue_name run_id renew s ≡ p
          → SaysCompleted t
      go (ok text, u) q =
          observed renew s
            (ground (arith, (supervision_from_outcome_iff text RunSupervision.completed).0))
      go (err x, u) q = absurd (ground arith)

  complete_run-SaysCompleted :
      (rendering : Rendering) (output : Json) (s t : S)
      → complete_run db rendering queue_name run_id output s ≡ (ok tt, t)
      → SaysCompleted t
  unfolding complete_run
  complete_run-SaysCompleted rendering output s t e =
      go (db.complete_run queue_name run_id output s) refl
    where
      go :
          (p : Result Bool SqlxError × S)
          → db.complete_run queue_name run_id output s ≡ p
          → SaysCompleted t
      go (ok true, u) q = accepted output s (ground arith)
      go (ok false, u) q = absurd (ground arith)
      go (err x, u) q = absurd (ground arith)

  module _ (rendering : Rendering) where
    after_failure-ne-completed :
        (p : Result RunSupervision Error × S) {r : Result (Unit {0}) Error} {t : S}
        → after_failure db rendering queue_name run_id p
          ≢ (r, finishes ExecutionOutcome.completed, t)
    after_failure-ne-completed (ok v, s) h = ground arith
    after_failure-ne-completed (err x, s) h = cc

    failure-ne-completed :
        (a : Result (Unit {0}) Error × S) {r : Result (Unit {0}) Error} {t : S}
        → finish_failure_transition db rendering queue_name run_id a
          ≢ (r, finishes ExecutionOutcome.completed, t)
    unfolding finish_failure_transition
    failure-ne-completed (ok done, s) h =
        after_failure-ne-completed (supervise_run db queue_name run_id none s) h
    failure-ne-completed (err e, s) h = ground arith

    pub fail_with-ne-completed :
        (failure : Json) (s : S) {r : Result (Unit {0}) Error} {t : S}
        → fail_with db rendering queue_name run_id failure s
          ≢ (r, finishes ExecutionOutcome.completed, t)
    unfolding fail_with
    fail_with-ne-completed failure s h =
        failure-ne-completed (fail_run db rendering queue_name run_id failure s) h

    finished_by-SaysCompleted :
        (v : RunSupervision) (s : S) {r : Result (Unit {0}) Error} {t : S}
        → (v ≡ RunSupervision.completed → SaysCompleted s)
        → finished_by v s ≡ (r, finishes ExecutionOutcome.completed, t)
        → SaysCompleted t
    finished_by-SaysCompleted RunSupervision.completed s told h =
        subst SaysCompleted (cc) (told refl)
    finished_by-SaysCompleted RunSupervision.running s told h = cc
    finished_by-SaysCompleted RunSupervision.failed s told h = cc
    finished_by-SaysCompleted RunSupervision.cancelled s told h = cc
    finished_by-SaysCompleted RunSupervision.suspended s told h = cc
    finished_by-SaysCompleted RunSupervision.lease_lost s told h = cc

    completion-SaysCompleted :
        (output : Json) (s : S) {r : Result (Unit {0}) Error} {t : S}
        → after_completion db rendering queue_name run_id
            (complete_run db rendering queue_name run_id output s)
          ≡ (r, finishes ExecutionOutcome.completed, t)
        → SaysCompleted t
    completion-SaysCompleted output s {r} {t} h =
        go (complete_run db rendering queue_name run_id output s) refl h
      where
        go :
            (p : Result (Unit {0}) Error × S)
            → complete_run db rendering queue_name run_id output s ≡ p
            → after_completion db rendering queue_name run_id p
              ≡ (r, finishes ExecutionOutcome.completed, t)
            → SaysCompleted t
        go (ok done, u) q h = complete_run-SaysCompleted rendering output s t (ground arith)
        go (err e, u) q h = absurd (ground arith)

    control-SaysCompleted :
        (e : Error) (s : S) {r : Result (Unit {0}) Error} {t : S}
        → after_control db rendering queue_name run_id e (supervise_run db queue_name run_id none s)
          ≡ (r, finishes ExecutionOutcome.completed, t)
        → SaysCompleted t
    control-SaysCompleted e s {r} {t} h = go (supervise_run db queue_name run_id none s) refl h
      where
        go :
            (p : Result RunSupervision Error × S)
            → supervise_run db queue_name run_id none s ≡ p
            → after_control db rendering queue_name run_id e p
              ≡ (r, finishes ExecutionOutcome.completed, t)
            → SaysCompleted t
        go (ok RunSupervision.running, u) q h = absurd (fail_with-ne-completed _ u h)
        go (ok RunSupervision.completed, u) q h =
            supervise_run-SaysCompleted none s t (ground arith)
        go (ok RunSupervision.failed, u) q h = cc
        go (ok RunSupervision.cancelled, u) q h = cc
        go (ok RunSupervision.suspended, u) q h = cc
        go (ok RunSupervision.lease_lost, u) q h = cc
        go (err x, u) q h = cc

    pub settle-SaysCompleted :
        (w : Winner) (s : S) {r : Result (Unit {0}) Error} {t : S}
        → (w ≡ supervised RunSupervision.completed → SaysCompleted s)
        → settle db rendering queue_name run_id w s ≡ (r, finishes ExecutionOutcome.completed, t)
        → SaysCompleted t
    unfolding settle
    settle-SaysCompleted (returned (ok output)) s told h = completion-SaysCompleted output s h
    settle-SaysCompleted (returned (err e)) s {r} {t} told h =
        elim (Bool-cases (is_control db rendering queue_name run_id e)) [
          | inl c ↦ control-SaysCompleted e s {r = r} {t = t} (ground arith)
          | inr c ↦ absurd (
              fail_with-ne-completed (serialize_error rendering e) s {r = r} {t = t} (ground arith))
        ]
    settle-SaysCompleted (panicked m) s told h = absurd (fail_with-ne-completed (panic_json m) s h)
    settle-SaysCompleted (supervised v) s told h =
        finished_by-SaysCompleted v s (λ e. told (ap supervised e)) h
    settle-SaysCompleted (unsupervised e) s told h = cc
