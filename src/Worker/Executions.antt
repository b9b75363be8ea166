-- ===== src/Worker/Executions.antt =====
-- src/worker.rs: which runs a worker executes, told by the calls that it makes.
pub mod Steps
use mathlib.Core.List.{append_assoc, Perm, Permᴰ}
use mathlib.Core.List.Permᴰ
use steda.Prelude.{
  ◌⊎◌, ℕ, ◌≤◌, ◌≡◌, refl, Option, none, some, List, [], ◌∷◌, ◌++◌, ◌∙◌, arith, subst, ap,
  Bool-cases, ltb, inl, inr, ltb→lt,
}
use steda.Text.{Str}
use steda.Error.{Error, Result, ok, err}
use steda.Types.{ClaimedTask}
use steda.Options.{i32_max, u64_max}
use steda.World.{Database, Clock}
use steda.Metrics.{new}
use steda.Metrics.Accounting.{drops}
use steda.Executor.{Rendering, Turn, Attempt, execute_task}
use steda.Worker.{Worker, default_poll_interval}
use steda.Worker.Loop.{
  available, after_check, attempt_result, leave, ended, failed_join, terminal_join_error,
  after_attempt, after_join, take_at, join_attempt, abort_attempt, Phase, sleeps, shuts_down,
  none_ready, aborts, joins, proceeds, WorkerLoop, Input, run_loop, fresh_loop,
}
use steda.Worker.Loop.{
  joining, waiting, checking, idling, draining, returned, after_claim, claim, loop_step, is_joining,
}
use steda.Worker.Loop.Joins.{take_at-Perm}
use steda.Worker.Bounds.{executing-failed_claim}
use steda.Worker.Loop.Transitions.{claimed_by}
use steda.Worker.Errors.{run_loop-IsFatal}
use steda.Worker.Accounting.{run_loop-balanced}
use steda.Worker.Loop.History.{
  Does, ends, claims, fails_to_claim, executes, panics, finds_none, stops, rests, Account, Stays,
  after_join-left, after_none-Stays, after_shutdown-Stays, after_idling-store,
}
use steda.Worker.Executions.Steps.{loop_step-Account}

module _ {S : Type 0} (db : Database S) (clock : Clock S) (rendering : Rendering)
    (worker : Worker S) (worker_id : Str) (lease_seconds : ℕ) where
  abbrev Accounts : List (Input S) → WorkerLoop S → WorkerLoop S → Type 0
  Accounts = Account db clock rendering worker worker_id lease_seconds

  run_loop-Account :
      worker.runtime.concurrency ≤ i32_max
      → (inputs : List (Input S)) (w v : WorkerLoop S)
      → run_loop db clock rendering worker worker_id lease_seconds inputs w ≡ some v
      → Accounts inputs w v
  unfolding run_loop Account
  run_loop-Account fits [] w v e =
      let same : w ≡ v = cc in
      subst (Accounts [] w) same ([], [], ends, Permᴰ.append-nil w.executing)
  run_loop-Account fits (i ∷ inputs) w v e =
      go (loop_step db clock rendering worker worker_id lease_seconds i w) refl
        (run_loop-Account fits inputs)
    where
      go :
          (o : Option (WorkerLoop S))
          → loop_step db clock rendering worker worker_id lease_seconds i w ≡ o
          → ((u x : WorkerLoop S)
              → run_loop db clock rendering worker worker_id lease_seconds inputs u ≡ some x
              → Accounts inputs u x)
          → Accounts (i ∷ inputs) w v
      go none q rest = absurd (ground (arith, e, q))
      go (some u) q rest =
          loop_step-Account db clock rendering worker worker_id lease_seconds fits i inputs w u v q
            (rest u v (ground (arith, e, q)))

  -- When a worker on new counters has returned, it has executed exactly the runs that it claimed, each
  -- as often as it was claimed: its inputs made it claim some tasks and execute, each by
  -- `execute_task` on the task that was claimed, or panic in, the same tasks in some order. Its
  -- counters say so too, unless that of the claimed runs is at its limit. Its capacity is assumed to
  -- fit the database.
  pub run_loop-executes :
      worker.runtime.concurrency ≤ i32_max
      → (inputs : List (Input S)) (s : S) (v : WorkerLoop S) (r : Result (Unit {0}) Error)
      → run_loop db clock rendering worker worker_id lease_seconds inputs (fresh_loop new s)
        ≡ some v
      → v.phase ≡ returned r
      → (claimed : List ClaimedTask) × (executed : List ClaimedTask) × Does db clock rendering
          worker worker_id lease_seconds inputs s v.store claimed executed
        × Perm claimed executed
        × ((v.metrics.claimed_runs ≡ u64_max) ⊎ (v.metrics.executions ≡ v.metrics.claimed_runs))
  unfolding Account
  run_loop-executes fits inputs s v r e p =
      let (claimed, executed, does, kept) = run_loop-Account fits inputs (fresh_loop new s) v e in
      let (empty, _) =
        run_loop-IsFatal db clock rendering worker worker_id lease_seconds fits inputs new s v r e
          p in
      (
        claimed,
        executed,
        does,
        ∣ Permᴰ.trans (subst (λ (xs : List ClaimedTask). Permᴰ claimed (executed ++ xs)) empty kept)
            (Permᴰ.append-nil executed) ∣₁,
        run_loop-balanced db clock rendering worker worker_id lease_seconds fits inputs s v r e p,
      )
