-- ===== src/Examples/Queues.antt =====
-- The theorems on queues, in the small world of the examples.
use steda.Prelude.{true, ℕ, ◌≡◌, ◌⊎◌, arith, refl, some, Option}
use steda.Text.{codes, str_eq, trim, is_whitespace, byte_len}
use steda.Json.{Json, insert}
use steda.Error.{Error, Result, ok, err}
use steda.Names.{validate_task_name}
use steda.Types.{
  SpawnConfig, default_config, QueuePolicyOptions, new_policy_options, with_cleanup_limit,
}
use steda.Task.{Task}
use steda.World.{call}
use steda.Options.{
  normalize_spawn_options, validate_spawn_options, database_positive_i32, insert_cancellation,
  cancellation_object, duration_seconds, duration_seconds_i64,
}
use steda.Options.Stages.{IsValidConfig}
use steda.Executor.{base_service}
use steda.Queue.{
  Queue, SpawnedTask, new_handle, spawn_typed, spawn_serialized, create_with_policy, in_transaction,
  create_queue_body, policy_values,
}
use steda.Queue.Spawning.{Submitted, spawn_typed-Submitted, spawn_typed-invalid}
use steda.Queue.Policy.{create_with_policy-cases, IsCommitted, IsRolledBack, HoldsPolicy}
use steda.Examples.{true, Store, test_database, idle, json_codec, some_task}
use steda.Examples.Options.{test_as_secs_f64, three_attempts}

abbrev orders_queue : Queue Store
orders_queue = record { name = codes "orders"; execution = base_service }

abbrev charge_definition : Task
charge_definition = record { name = codes "charge" }

abbrev new_charge : SpawnedTask
new_charge = record {
  handle = new_handle (codes "orders") charge_definition some_task;
  created = true;
}

spawn_typed-Submitted_example :
    Submitted test_database test_as_secs_f64 orders_queue json_codec charge_definition Json.null
      three_attempts idle idle new_charge
unfolding spawn_typed spawn_serialized validate_task_name trim is_whitespace byte_len
    normalize_spawn_options validate_spawn_options database_positive_i32 insert_cancellation
    cancellation_object duration_seconds_i64 insert str_eq
spawn_typed-Submitted_example =
    spawn_typed-Submitted test_database test_as_secs_f64 orders_queue json_codec charge_definition
      Json.null three_attempts idle idle new_charge refl

abbrev no_attempts : SpawnConfig
no_attempts = record default_config { max_attempts = some 0 }

no_attempts_invalid : ¬ IsValidConfig test_as_secs_f64 no_attempts
no_attempts_invalid h = omega (arith, h.attempts)

spawn_typed-invalid_example :
    (e : Error) × (spawn_typed test_database test_as_secs_f64 orders_queue json_codec
        charge_definition Json.null no_attempts idle
      ≡ (err e, idle))
spawn_typed-invalid_example =
    spawn_typed-invalid test_database test_as_secs_f64 orders_queue json_codec charge_definition
      Json.null no_attempts idle no_attempts_invalid

abbrev ten_at_once : QueuePolicyOptions
ten_at_once = with_cleanup_limit new_policy_options 10

abbrev created : Result (Unit {0}) Error
created = ok tt

create_with_policy-cases_example :
    ((values : Option ℕ × Option ℕ) × HoldsPolicy ten_at_once values
      × (created ≡ ok tt)
      × IsCommitted test_database (codes "orders") values idle idle)
    ⊎ ((e : Error) × (created ≡ err e)
        × (((policy_values ten_at_once ≡ err e) × (idle ≡ idle))
            ⊎ ((call test_database.begin idle ≡ (err e, idle))
                ⊎ IsRolledBack test_database idle idle)))
unfolding create_with_policy in_transaction create_queue_body database_positive_i32 duration_seconds
create_with_policy-cases_example =
    create_with_policy-cases test_database orders_queue ten_at_once idle idle created refl
