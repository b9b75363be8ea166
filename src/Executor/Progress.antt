-- ===== src/Executor/Progress.antt =====
-- src/executor.rs: the `select!` of a task and its supervision comes to an end, and so does the
-- attempt, under every schedule that keeps polling the task.
use steda.Prelude.{
  ℕ, suc, zero, none, some, List, [], ◌∷◌, ◌+◌, ◌≡◌, refl, arith, inl, inr, ◌⊎◌, subst, ap, ◌∙◌,
  Option,
}
use steda.Text.{Str}
use steda.Json.{Json, JsonObject}
use steda.Types.{ClaimedTask}
use steda.Context.{Cell, TaskContext, new_context}
use steda.Error.{Error, Result, ok, err}
use steda.World.{Database}
use steda.Identifiers.{RunId}
use steda.Db.{RunSupervision, supervise_run}
use steda.Executor.{
  Activity, resumed, returns, panics, acts, Winner, returned, panicked, Rendering, race, Turn,
  task_polled, supervisor_polled, supervise, after_turn, settle_winner, run_request, start_request,
  execute_task, Attempt, ExecutionRequest, TaskExecutor, lookup_executor, unsupported, dropped,
}

Turn-cases : (t : Turn) → (t ≡ task_polled) ⊎ (t ≡ supervisor_polled)
Turn-cases task_polled = inl refl
Turn-cases supervisor_polled = inr refl

-- The turns of a schedule from one on, so many of them.
unfoldable pub turns_from : (ℕ → Turn) → ℕ → ℕ → List Turn
turns_from schedule k zero = []
turns_from schedule k (suc n) = schedule k ∷ turns_from schedule (suc k) n

-- At every point of the schedule, the task is polled then or later.
abbrev pub IsFair : (ℕ → Turn) → Type 0
IsFair schedule = (k : ℕ) → (d : ℕ) × (schedule (k + d) ≡ task_polled)

module _ {S : Type 0} where
  -- The user's code comes to an end: it returns or panics, or after a poll, whatever cell that found,
  -- the rest of it comes to an end. A future that stays pending for ever does not.
  pub data Finishes : Activity S → Type 0 where
    has_returned :
        {activity : Activity S} (r : Result Json Error)
        → activity [] ≡ returns r
        → Finishes activity
    has_panicked :
        {activity : Activity S} (payload : Option Str)
        → activity [] ≡ panics payload
        → Finishes activity
    goes_on :
        {activity : Activity S} (f : Cell S → Cell S)
        → activity [] ≡ acts f
        → ((c : Cell S) → Finishes (resumed c activity))
        → Finishes activity

  -- What a service makes of the executors of a registry comes to an end, for every task and input.
  abbrev pub AllFinish : (ExecutionRequest S → Activity S) → List (Str × TaskExecutor S) → Type 0
  AllFinish service registry =
      (name : Str) (executor : TaskExecutor S)
      → lookup_executor name registry ≡ some executor
      → (ctx : TaskContext) (input : Json)
      → Finishes (service (record { context = ctx; input = input; executor = executor }))

module _ {S : Type 0} (db : Database S) (rendering : Rendering) (queue_name : Str) (run_id : RunId)
    (lease_seconds : ℕ) (schedule : ℕ → Turn) where
  abbrev Ends : Activity S → ℕ → Cell S → Type 0
  Ends activity k c =
      (n : ℕ) × (a : Winner × Cell S) × (race db rendering queue_name run_id lease_seconds
          (turns_from schedule k n) activity c
        ≡ some a)

  -- After a turn of the supervisor the race has ended, or goes on as `later` says.
  after_turn-Ends :
      (activity : Activity S) (k : ℕ) (later : (c : Cell S) → Ends activity (suc k) c)
      (v : Result RunSupervision Error × Cell S)
      → (n : ℕ) × (a : Winner × Cell S) × (after_turn db rendering queue_name run_id lease_seconds
            (race db rendering queue_name run_id lease_seconds
              (turns_from schedule (suc k) n)
              activity)
            v
          ≡ some a)
  after_turn-Ends activity k later (ok RunSupervision.running, c) = later c
  after_turn-Ends activity k later (ok RunSupervision.completed, c) = (0, _, refl)
  after_turn-Ends activity k later (ok RunSupervision.failed, c) = (0, _, refl)
  after_turn-Ends activity k later (ok RunSupervision.cancelled, c) = (0, _, refl)
  after_turn-Ends activity k later (ok RunSupervision.suspended, c) = (0, _, refl)
  after_turn-Ends activity k later (ok RunSupervision.lease_lost, c) = (0, _, refl)
  after_turn-Ends activity k later (err e, c) = (0, _, refl)

  -- The race ends if it does at the next turn of the task.
  wait-Ends :
      (activity : Activity S)
      (step : (k : ℕ) (c : Cell S) → schedule k ≡ task_polled → Ends activity k c) (d k : ℕ)
      → schedule (k + d) ≡ task_polled
      → (c : Cell S) → Ends activity k c
  unfolding race turns_from
  wait-Ends activity step zero k e c =
      step k c (subst (λ (n : ℕ). schedule n ≡ task_polled) (omega arith) e)
  wait-Ends activity step (suc d) k e c = elim (Turn-cases (schedule k)) [
    | inl p ↦ step k c p
    | inr p ↦
        let later =
          after_turn-Ends activity k
            (wait-Ends activity step d (suc k)
              (subst (λ (n : ℕ). schedule n ≡ task_polled) (omega arith) e))
            (supervise db rendering queue_name run_id lease_seconds c) in
        (suc later.0, later.1, rw p later.2)
  ]

  activity-Ends :
      IsFair schedule
      → (activity : Activity S) → Finishes activity
      → (k : ℕ) (c : Cell S) → Ends activity k c
  unfolding race turns_from
  activity-Ends fair activity (has_returned r e) k c =
      wait-Ends activity (λ j d p. (1, (returned r, d), rw (p, e) refl)) (fair k).0 k (fair k).1 c
  activity-Ends fair activity (has_panicked m e) k c =
      wait-Ends activity (λ j d p. (1, (panicked m, d), rw (p, e) refl)) (fair k).0 k (fair k).1 c
  activity-Ends fair activity (goes_on f e later) k c =
      wait-Ends activity
        (λ j d p.
          let rest = activity-Ends fair (resumed d activity) (later d) (suc j) (f d) in
          (suc rest.0, rest.1, rw (p, e) rest.2))
        (fair k).0 k (fair k).1 c

  run_request-ends :
      IsFair schedule
      → (service : ExecutionRequest S → Activity S) (executor : TaskExecutor S) (task : ClaimedTask)
      → ((ctx : TaskContext) (input : Json)
          → Finishes (service (record { context = ctx; input = input; executor = executor })))
      → (a : Result (TaskContext × JsonObject) Error × S)
      → (n : ℕ) × (b : Attempt S) × (run_request db rendering queue_name run_id lease_seconds
            service
            (turns_from schedule 0 n)
            executor
            task
            a
          ≡ some b)
  run_request-ends fair service executor task finishes (ok (ctx, cache), s) =
      let c : Cell S = record { store = s; checkpoint_cache = cache } in
      let later =
        activity-Ends fair
          (service (record { context = ctx; input = task.params; executor = executor }))
          (finishes ctx task.params) 0 c in
      (later.0, _, ap (settle_winner db rendering queue_name run_id lease_seconds) later.2)
  run_request-ends fair service executor task finishes (err Error.suspended, s) = (0, _, refl)
  run_request-ends fair service executor task finishes (err Error.cancelled, s) = (0, _, refl)
  run_request-ends fair service executor task finishes (err Error.failed_run, s) = (0, _, refl)
  run_request-ends fair service executor task finishes (err Error.lease_lost, s) = (0, _, refl)
  run_request-ends fair service executor task finishes (err Error.idempotency_conflict, s) =
      (0, _, refl)
  run_request-ends fair service executor task finishes (err Error.missing_queue_name, s) =
      (0, _, refl)
  run_request-ends fair service executor task finishes (err (Error.database _), s) = (0, _, refl)
  run_request-ends fair service executor task finishes (err (Error.invalid_options _), s) =
      (0, _, refl)
  run_request-ends fair service executor task finishes (err (Error.queue_name_too_long _ _), s) =
      (0, _, refl)
  run_request-ends fair service executor task finishes (err (Error.task_not_found _), s) =
      (0, _, refl)
  run_request-ends fair service executor task finishes (err (Error.task_name_mismatch _ _ _), s) =
      (0, _, refl)
  run_request-ends fair service executor task finishes (err (Error.task_failed _), s) = (0, _, refl)
  run_request-ends fair service executor task finishes (err (Error.timeout _), s) = (0, _, refl)
  run_request-ends fair service executor task finishes (err (Error.invalid_task_headers _), s) =
      (0, _, refl)
  run_request-ends fair service executor task finishes (err (Error.serialization _), s) =
      (0, _, refl)
  run_request-ends fair service executor task finishes (err (Error.task _), s) = (0, _, refl)
  run_request-ends fair service executor task finishes (err (Error.other _), s) = (0, _, refl)

  start_request-ends :
      IsFair schedule
      → (service : ExecutionRequest S → Activity S) (executor : TaskExecutor S) (task : ClaimedTask)
      → ((ctx : TaskContext) (input : Json)
          → Finishes (service (record { context = ctx; input = input; executor = executor })))
      → (a : Result RunSupervision Error × S)
      → (n : ℕ) × (b : Attempt S) × (start_request db rendering queue_name run_id lease_seconds
            service
            (turns_from schedule 0 n)
            executor
            task
            a
          ≡ some b)
  start_request-ends fair service executor task finishes (ok RunSupervision.running, s) =
      run_request-ends fair service executor task finishes (new_context db queue_name task s)
  start_request-ends fair service executor task finishes (ok RunSupervision.completed, s) =
      (0, _, refl)
  start_request-ends fair service executor task finishes (ok RunSupervision.failed, s) =
      (0, _, refl)
  start_request-ends fair service executor task finishes (ok RunSupervision.cancelled, s) =
      (0, _, refl)
  start_request-ends fair service executor task finishes (ok RunSupervision.suspended, s) =
      (0, _, refl)
  start_request-ends fair service executor task finishes (ok RunSupervision.lease_lost, s) =
      (0, _, refl)
  start_request-ends fair service executor task finishes (err e, s) = (0, _, refl)

-- If the user's code comes to an end for every executor of the registry, then under a schedule that
-- polls the task again and again, in any interleaving with the supervisor, an attempt ends after
-- finitely many turns, whatever the database answers: it is never left waiting on its supervision.
pub execute_task-ends :
    {S : Type 0} (db : Database S) (rendering : Rendering)
    (service : ExecutionRequest S → Activity S) (queue_name : Str)
    (registry : List (Str × TaskExecutor S)) (schedule : ℕ → Turn) (task : ClaimedTask)
    (lease_seconds : ℕ) (s : S)
    → IsFair schedule
    → AllFinish service registry
    → (n : ℕ) × (a : Attempt S) × (execute_task db rendering service queue_name registry task
          lease_seconds
          (turns_from schedule 0 n)
          s
        ≡ some a)
unfolding execute_task
execute_task-ends {S} db rendering service queue_name registry schedule task lease_seconds s fair
      finish =
    go (lookup_executor task.task_name registry) refl
  where
    left : List Turn → Option (TaskExecutor S) → Option (Attempt S)
    left turns o = elim o [
      | none ↦ some (dropped (unsupported db rendering service queue_name registry task) s)
      | some executor ↦
          start_request db rendering queue_name task.run_id lease_seconds service turns executor
            task (supervise_run db queue_name task.run_id (some lease_seconds) s)
    ]

    go :
        (o : Option (TaskExecutor S))
        → lookup_executor task.task_name registry ≡ o
        → (n : ℕ) × (a : Attempt S) × (left
              (turns_from schedule 0 n)
              (lookup_executor task.task_name registry)
            ≡ some a)
    go none q = (0, _, ap (left (turns_from schedule 0 0)) q)
    go (some executor) q =
        let (n, a, e) =
          start_request-ends db rendering queue_name task.run_id lease_seconds schedule fair service
            executor task (finish task.task_name executor q)
            (supervise_run db queue_name task.run_id (some lease_seconds) s) in
        (n, a, ap (left (turns_from schedule 0 n)) q ∙ e)
