-- ===== src/Examples/Workers.antt =====
-- The theorems on workers, in the small world of the examples with a charge to claim.
use steda.Prelude.{
  ℕ, ◌≤◌, ◌≡◌, ◌≢◌, ◌⊎◌, arith, refl, some, none, List, [], ◌∷◌, pos, All, true, if◌then◌else◌, leb,
  length, Bool-cases, inl, inr, ◌&&◌, subst,
}
use steda.Text.{Str, codes, str_eq, trim, is_whitespace, byte_len}
use steda.Duration.{from_secs}
use steda.Json.{Json}
use steda.Error.{Argument, format, err, Error, Result, ok}
use steda.World.{Database, ClaimedRow}
use steda.Db.{
  supervise_run, supervision_from_outcome, claim_tasks, claimed_tasks_from_rows,
  claimed_task_from_row, headers_from_column,
}
use steda.Db.Claims.{ClaimsAtMost, ClaimsSupported, supports}
use steda.Context.{new_context, cache_from_rows}
use steda.Metrics.{new, record_claimed}
use steda.Metrics.Accounting.{drops, execute}
use steda.Executor.{
  Rendering, Turn, task_polled, TaskExecutor, returns, base_service, execute_task, race, settle,
  complete_run,
}
use steda.Queue.{Queue}
use steda.Options.{u64_max, duration_seconds}
use steda.Names.{validate_task_name}
use steda.Worker.{
  contains_key, register_task_executor, concurrency, lease_duration, Worker, registered_task_names,
  build_worker,
}
use steda.Worker.Loop.{
  joining, aborts, abort_attempt, Input, draining, returned, WorkerLoop, joins, none_ready,
  shuts_down, proceeds, fresh_loop, run_loop, loop_step, join_attempt, claim, take_at,
  attempt_result, terminal_join_error,
}
use steda.Worker.Loop.Joins.{IsFatal}
use steda.Worker.Bounds.{run_loop-IsBounded}
use steda.Worker.Errors.{run_loop-IsFatal}
use mathlib.Core.List.{Perm}
use steda.Worker.Executions.{run_loop-executes}
use steda.Worker.Loop.History.{Does}
use steda.Worker.Drain.{HasStopped, run_loop-HasStopped}
use steda.Worker.Capabilities.{IsExecutable, run_loop-IsExecutable}
use steda.Worker.Builder.{
  apply_call, BuilderCall, leases, limits, registers, configure, IsValidRegistry, IsValidRuntime,
  build_worker-IsValid,
}
use steda.Examples.{charge_task, Store, test_database, test_clock, idle, some_run, some_task}
use steda.Options.{duration_seconds}
use steda.Types.{ClaimedTask, ClaimedTask}

abbrev charge_row : ClaimedRow
charge_row = record {
  run_id = some_run;
  task_id = some_task;
  attempt = pos 1;
  task_name = codes "charge";
  params = Json.null;
  headers = none;
}

-- There is a charge to claim, for a worker that has room and supports it.
abbrev offered : ℕ → List Str → List ClaimedRow
offered batch names = if leb 1 batch && supports names (codes "charge") then charge_row ∷ [] else []

abbrev charge_database : Database Store
charge_database = record test_database { claim_tasks = λ q w l b n s. (ok (offered b n), s) }

offered-AtMost : (batch : ℕ) (names : List Str) → length (offered batch names) ≤ batch
offered-AtMost batch names = ground arith

charge_database-ClaimsAtMost : ClaimsAtMost charge_database
charge_database-ClaimsAtMost q w l b n s t rows e =
    let same : offered b n ≡ rows = cc in
    subst (λ (r : List ClaimedRow). length r ≤ b) same (offered-AtMost b n)

offered-Supported :
    (batch : ℕ) (names : List Str)
    → All (λ row. supports names row.task_name ≡ true) (offered batch names)
offered-Supported batch names = elim (Bool-cases (leb 1 batch && supports names (codes "charge"))) [
  | inl e ↦ rw e ((ground arith, tt))
  | inr e ↦ rw e tt
]

charge_database-ClaimsSupported : ClaimsSupported charge_database
charge_database-ClaimsSupported q w l b n s t rows e =
    let same : offered b n ≡ rows = cc in
    subst (All (λ row. supports n row.task_name ≡ true)) same (offered-Supported b n)

abbrev quick_executor : TaskExecutor Store
quick_executor input ctx seen = returns (ok Json.null)

abbrev plain_rendering : Rendering
plain_rendering = record { to_string = λ e. codes "task failed"; sources = λ e. [] }

abbrev orders : Queue Store
orders = record { name = codes "orders"; execution = base_service }

abbrev charge_worker : Worker Store
charge_worker = record {
  queue = orders;
  registry = (codes "charge", quick_executor) ∷ [];
  runtime = record { lease_duration = from_secs 30; concurrency = 2 };
}

-- The worker claims a charge and executes it; then it shuts down.
abbrev one_charge : List (Input Store)
one_charge =
    none_ready
    ∷ proceeds
    ∷ joins 0 (task_polled ∷ task_polled ∷ []) 5
    ∷ none_ready
    ∷ shuts_down
    ∷ none_ready
    ∷ []

abbrev after_charge : WorkerLoop Store
after_charge = record {
  phase = returned (ok tt);
  executing = [];
  terminal_error = none;
  metrics = record {
    claimed_runs = 1;
    claim_errors = 0;
    executions = 1;
    completed_executions = 1;
    failed_executions = 0;
    lease_lost_executions = 0;
    cancelled_executions = 0;
    suspended_executions = 0;
    unhandled_executions = 0;
    execution_duration_nanoseconds = 5;
  };
  store = idle;
}

abbrev finished : Result (Unit {0}) Error
finished = ok tt

one_charge_run :
    run_loop charge_database test_clock plain_rendering charge_worker
      (codes "w")
      30
      one_charge
      (fresh_loop new idle)
    ≡ some after_charge
unfolding run_loop loop_step join_attempt claim take_at attempt_result terminal_join_error
    execute_task base_service race settle complete_run supervise_run supervision_from_outcome
    new_context cache_from_rows str_eq claim_tasks claimed_tasks_from_rows claimed_task_from_row
    headers_from_column registered_task_names supports new execute record_claimed
one_charge_run = refl

-- The worker has claimed a charge, whose attempt is in flight.
abbrev claims_charge : List (Input Store)
claims_charge = none_ready ∷ proceeds ∷ []

abbrev in_flight : WorkerLoop Store
in_flight = record {
  phase = joining;
  executing = charge_task ∷ [];
  terminal_error = none;
  metrics = record_claimed 1 new;
  store = idle;
}

claims_charge_run :
    run_loop charge_database test_clock plain_rendering charge_worker
      (codes "w")
      30
      claims_charge
      (fresh_loop new idle)
    ≡ some in_flight
unfolding run_loop loop_step claim str_eq claim_tasks claimed_tasks_from_rows claimed_task_from_row
    headers_from_column registered_task_names supports new record_claimed
claims_charge_run = refl

run_loop-IsBounded_example : length in_flight.executing ≤ 2
run_loop-IsBounded_example =
    run_loop-IsBounded charge_database test_clock plain_rendering charge_worker (codes "w") 30
      charge_database-ClaimsAtMost claims_charge new idle in_flight claims_charge_run

run_loop-IsExecutable_example : All (IsExecutable charge_worker.registry) in_flight.executing
run_loop-IsExecutable_example =
    run_loop-IsExecutable charge_database test_clock plain_rendering charge_worker (codes "w") 30
      charge_database-ClaimsSupported claims_charge new idle in_flight claims_charge_run

run_loop-IsFatal_example :
    (after_charge.executing ≡ [])
    × ((finished ≡ ok tt) ⊎ ((e : Error) × (finished ≡ err e) × IsFatal e))
run_loop-IsFatal_example =
    run_loop-IsFatal charge_database test_clock plain_rendering charge_worker (codes "w") 30
      (omega arith) one_charge new idle after_charge finished one_charge_run refl

run_loop-executes_example :
    (claimed : List ClaimedTask) × (executed : List ClaimedTask) × Does charge_database test_clock
      plain_rendering charge_worker
      (codes "w")
      30
      one_charge
      idle
      idle
      claimed
      executed
    × Perm claimed executed
    × ((after_charge.metrics.claimed_runs ≡ u64_max)
        ⊎ (after_charge.metrics.executions ≡ after_charge.metrics.claimed_runs))
run_loop-executes_example =
    run_loop-executes charge_database test_clock plain_rendering charge_worker (codes "w") 30
      (omega arith) one_charge idle after_charge (ok tt) one_charge_run refl

-- A charge is in flight when the shutdown comes.
abbrev draining_charge : WorkerLoop Store
draining_charge = record {
  phase = draining;
  executing = charge_task ∷ [];
  terminal_error = none;
  metrics = new;
  store = idle;
}

abbrev polled : ℕ → Turn
polled n = task_polled

abbrev drained : WorkerLoop Store
drained = record {
  phase = draining;
  executing = [];
  terminal_error = some (
      Error.other
        (format "worker task join failed: {err}" (Argument.display (codes "panic") ∷ [])));
  metrics = execute drops 3 new;
  store = idle;
}

run_loop-HasStopped_example : HasStopped draining_charge drained
unfolding run_loop loop_step abort_attempt take_at terminal_join_error
run_loop-HasStopped_example =
    run_loop-HasStopped charge_database test_clock plain_rendering charge_worker (codes "w") 30
      (aborts 0 (λ s. s) 3 (codes "panic") ∷ []) draining_charge drained refl refl

abbrev charge_calls : List (BuilderCall Store)
charge_calls =
    leases (from_secs 30)
    ∷ limits 2
    ∷ registers (record { name = codes "charge" }) quick_executor
    ∷ []

build_worker-IsValid_example :
    (charge_worker.registry ≢ [])
    × IsValidRegistry charge_worker.registry
    × IsValidRuntime charge_worker.runtime
unfolding build_worker configure apply_call lease_duration concurrency register_task_executor
    contains_key duration_seconds validate_task_name trim is_whitespace byte_len
build_worker-IsValid_example = build_worker-IsValid orders charge_calls charge_worker refl
