-- ===== src/Examples/Attempts.antt =====
-- The theorems on attempts, in the small world of the examples.
use steda.Prelude.{inr, subst, inl, Bool-cases, ℕ, ◌≡◌, arith, refl, none, some, List, [], ◌∷◌, All}
use steda.Text.{Str, codes, str_eq}
use steda.Json.{Json, JsonObject}
use steda.Error.{Error, ok}
use steda.Context.{new_context, cache_from_rows}
use steda.Db.{supervise_run, supervision_from_outcome}
use steda.Metrics.{ExecutionOutcome}
use steda.Metrics.Accounting.{finishes}
use steda.Executor.{
  returns, acts, Rendering, Turn, task_polled, supervisor_polled, Attempt, TaskExecutor,
  base_service, execute_task, race, settle, complete_run, failure_message,
}
use steda.Executor.Authority.{SaysCompleted}
use steda.Executor.Completion.{execute_task-SaysCompleted}
use steda.Executor.Coherence.{IsCoherent, execute_task-Coherent}
use steda.Executor.Progress.{
  turns_from, IsFair, AllFinish, Finishes, goes_on, has_returned, execute_task-ends,
}
use steda.Executor.Failure.{IsIn, failure_message-IsIn}
use steda.Examples.{Store, test_database, idle, charge_task}

-- An executor that does nothing for one turn, and then returns.
abbrev slow_executor : TaskExecutor Store
slow_executor input ctx [] = acts (λ c. c)
slow_executor input ctx (c ∷ seen) = returns (ok Json.null)

abbrev test_rendering : Rendering
test_rendering = record {
  to_string = λ e. codes "task failed";
  sources = λ e. codes "card declined" ∷ codes "declined" ∷ [];
}

-- Code that stays pending for ever, as `future::pending` does: no schedule ends its race, while the
-- database says that the run is running.
pending_forever :
    (turns : List Turn) (cache : JsonObject)
    → race test_database test_rendering
        (codes "orders")
        charge_task.run_id
        30
        turns
        (λ seen. acts (λ d. d))
        (record { store = idle; checkpoint_cache = cache })
      ≡ none
unfolding race supervise_run supervision_from_outcome str_eq
pending_forever [] cache = refl
pending_forever (task_polled ∷ turns) cache = pending_forever turns cache
pending_forever (supervisor_polled ∷ turns) cache = pending_forever turns cache

abbrev test_registry : List (Str × TaskExecutor Store)
test_registry = (codes "charge", slow_executor) ∷ []

execute_task-Coherent_example : IsCoherent (ok tt) (finishes ExecutionOutcome.completed)
unfolding execute_task base_service race settle complete_run supervise_run supervision_from_outcome
    new_context cache_from_rows str_eq
execute_task-Coherent_example =
    execute_task-Coherent test_database test_rendering base_service (codes "orders") test_registry
      charge_task 30 (task_polled ∷ supervisor_polled ∷ task_polled ∷ []) idle {r = ok tt}
      {e = finishes ExecutionOutcome.completed} {t = idle} refl

execute_task-SaysCompleted_example :
    SaysCompleted test_database (codes "orders") charge_task.run_id idle
unfolding execute_task base_service race settle complete_run supervise_run supervision_from_outcome
    new_context cache_from_rows str_eq
execute_task-SaysCompleted_example =
    execute_task-SaysCompleted test_database test_rendering base_service (codes "orders")
      test_registry charge_task 30 (task_polled ∷ supervisor_polled ∷ task_polled ∷ []) idle
      {r = ok tt} {t = idle} refl

abbrev always_task : ℕ → Turn
always_task n = task_polled

test_registry-AllFinish : AllFinish base_service test_registry
unfolding base_service str_eq
test_registry-AllFinish name executor found ctx input =
    elim (Bool-cases (str_eq name (codes "charge"))) [
      | inl e ↦
          let same : slow_executor ≡ executor = ground (arith, e, found) in
          subst (λ (x : TaskExecutor Store). Finishes (x input ctx)) same
            (goes_on (λ c. c) refl λ c. has_returned (ok Json.null) refl)
      | inr e ↦ absurd (ground (arith, e, found))
    ]

always_task-IsFair : IsFair always_task
always_task-IsFair k = (0, refl)

execute_task-ends_example :
    (n : ℕ) × (a : Attempt Store) × (execute_task test_database test_rendering base_service
        (codes "orders")
        test_registry
        charge_task
        30
        (turns_from always_task 0 n)
        idle
      ≡ some a)
execute_task-ends_example =
    execute_task-ends test_database test_rendering base_service (codes "orders") test_registry
      always_task charge_task 30 idle always_task-IsFair test_registry-AllFinish

failure_message-IsIn_example :
    IsIn (failure_message test_rendering Error.failed_run) (codes "task failed")
    × All
        (IsIn (failure_message test_rendering Error.failed_run))
        (codes "card declined" ∷ codes "declined" ∷ [])
failure_message-IsIn_example = failure_message-IsIn test_rendering Error.failed_run
