-- ===== src/Worker.antt =====
-- src/worker.rs: the worker's builder, its typed registry and the classification of errors.
pub mod Loop
pub mod Builder
pub mod Bounds
pub mod Errors
pub mod Accounting
pub mod Drain
pub mod Executions
pub mod Capabilities
use steda.Prelude.{
  ℕ, Bool, true, false, ◌||◌, ◌&&◌, Option, none, some, List, [], ◌∷◌, ◌==◌, ltb, is_empty,
  if◌then◌else◌,
}
use steda.Text.{Str, codes, str_eq, starts_with}
use steda.Duration.{Duration, from_secs, from_millis}
use steda.Json.{Json}
use steda.Error.{Error, SqlxError, Result, ok, err, literal, format, Argument}
use steda.Names.{validate_task_name}
use steda.Options.{duration_seconds, i32_max}
use steda.Task.{Codec, encode, decode, Task}
use steda.Context.{TaskContext, Cell}
use steda.Executor.{Activity, Future, returns, panics, acts, TaskExecutor}
use steda.Queue.{Queue}

abbrev pub default_poll_interval : Duration
default_poll_interval = from_millis 250

pub record WorkerRuntime : Type 0 where
  pub lease_duration : Duration
  pub concurrency : ℕ

abbrev pub default_runtime : WorkerRuntime
default_runtime = record { lease_duration = from_secs 120; concurrency = 1 }

-- `is_transient_sqlstate`.
unfoldable pub is_transient_sqlstate : Str → Bool
is_transient_sqlstate code =
    starts_with code (codes "08")
    || starts_with code (codes "40")
    || starts_with code (codes "53")
    || str_eq code (codes "55P03")
    || str_eq code (codes "57P01")
    || str_eq code (codes "57P02")
    || str_eq code (codes "57P03")

unfoldable pub is_transient_worker_error : Error → Bool
unfolding is_transient_sqlstate
is_transient_worker_error (Error.database SqlxError.io) = true
is_transient_worker_error (Error.database SqlxError.tls) = true
is_transient_worker_error (Error.database SqlxError.pool_timed_out) = true
is_transient_worker_error (Error.database (SqlxError.database (some code))) =
    is_transient_sqlstate code
is_transient_worker_error _ = false

-- The rest of an erased executor: the output of the typed future, whose errors have been converted, is
-- serialized.
unfoldable pub serialize_output : {S Output : Type 0} → Codec Output → Future S Output → Activity S
serialize_output codec future seen = elim (future seen) [
  | returns (ok output) ↦ returns (encode codec output)
  | returns (err e) ↦ returns (err e)
  | panics payload ↦ panics payload
  | acts f ↦ acts f
]

-- A typed executor as the registry keeps it: the input is deserialized first.
unfoldable pub erase :
    {S Input Output : Type 0}
    → Codec Input
    → Codec Output
    → (Input → TaskContext → Future S Output)
    → TaskExecutor S
unfolding serialize_output
erase input_codec output_codec executor raw context = elim (decode input_codec raw) [
  | ok input ↦ serialize_output output_codec (executor input context)
  | err e ↦ λ seen. returns (err e)
]

-- The registry of capabilities, by the names of their tasks.
abbrev pub Registry : Type 0 → Type 0
Registry S = List (Str × TaskExecutor S)

unfoldable pub contains_key : {S : Type 0} → Str → Registry S → Bool
contains_key name [] = false
contains_key name ((n, e) ∷ registry) = str_eq name n || contains_key name registry

unfoldable pub registered_task_names : {S : Type 0} → Registry S → List Str
registered_task_names [] = []
registered_task_names ((n, e) ∷ registry) = n ∷ registered_task_names registry

pub record WorkerBuilder (S : Type 0) : Type 0 where
  pub queue : Queue S
  pub registry : Registry S
  pub runtime : WorkerRuntime
  pub error : Option Error

pub record Worker (S : Type 0) : Type 0 where
  pub queue : Queue S
  pub registry : Registry S
  pub runtime : WorkerRuntime

module _ {S : Type 0} where
  abbrev pub new_builder : Queue S → WorkerBuilder S
  new_builder queue = record {
    queue = queue;
    registry = [];
    runtime = default_runtime;
    error = none;
  }

  abbrev pub unless_error :
      Option Error → (WorkerBuilder S → WorkerBuilder S) → WorkerBuilder S → WorkerBuilder S
  unless_error (some e) f b = b
  unless_error none f b = f b

  -- A builder that has failed stays as it is.
  abbrev pub unless_failed : (WorkerBuilder S → WorkerBuilder S) → WorkerBuilder S → WorkerBuilder S
  unless_failed f b = unless_error b.error f b

  abbrev pub failed : Error → WorkerBuilder S → WorkerBuilder S
  failed e b = record b { error = some e }

  abbrev pub set_lease : Duration → Result ℕ Error → WorkerBuilder S → WorkerBuilder S
  set_lease lease (err e) b = failed e b
  set_lease lease (ok seconds) b =
      if seconds == 0
      then failed (Error.invalid_options (literal "lease duration must round to at least 1 second"))
          b
      else record b { runtime = record b.runtime { lease_duration = lease } }

  unfoldable pub lease_duration : Duration → WorkerBuilder S → WorkerBuilder S
  lease_duration lease = unless_failed λ b. set_lease lease (duration_seconds lease) b

  abbrev pub set_concurrency : ℕ → WorkerBuilder S → WorkerBuilder S
  set_concurrency n b =
      if n == 0
      then failed (Error.invalid_options (literal "worker concurrency must be at least 1")) b
      else if ltb i32_max n
      then failed
          (Error.invalid_options (literal "worker concurrency exceeds PostgreSQL integer range")) b
      else record b { runtime = record b.runtime { concurrency = n } }

  unfoldable pub concurrency : ℕ → WorkerBuilder S → WorkerBuilder S
  concurrency n = unless_failed λ b. set_concurrency n b

  abbrev pub register :
      Task → TaskExecutor S → Result (Unit {0}) Error → WorkerBuilder S → WorkerBuilder S
  register task executor (err e) b = failed e b
  register task executor (ok valid) b =
      if contains_key task.name b.registry
      then failed
          (Error.invalid_options
            (format "task {:?} is already registered" (Argument.debug task.name ∷ [])))
          b
      else record b { registry = (task.name, executor) ∷ b.registry }

  -- `register_task_executor`, on an executor that is erased.
  unfoldable pub register_task_executor : Task → TaskExecutor S → WorkerBuilder S → WorkerBuilder S
  register_task_executor task executor =
      unless_failed λ b. register task executor (validate_task_name task.name) b

  abbrev pub finish_build : Option Error → WorkerBuilder S → Result (Worker S) Error
  finish_build (some e) b = err e
  finish_build none b =
      if is_empty b.registry
      then err (Error.invalid_options (literal "worker requires at least one task"))
      else ok (record { queue = b.queue; registry = b.registry; runtime = b.runtime })

  -- `WorkerBuilder::build`.
  unfoldable pub build_worker : WorkerBuilder S → Result (Worker S) Error
  build_worker b = finish_build b.error b

-- `worker_lease_seconds`.
unfoldable pub worker_lease_seconds : Duration → Result ℕ Error
worker_lease_seconds lease = duration_seconds lease
