-- ===== src/Queue.antt =====
-- src/queue.rs, with the spawn builder of src/task.rs: the operations of a queue handle. A handle is
-- the queue's name and the shared execution service; the pool is the database, and the variants on
-- a caller's connection make the same calls. The counters of a handle are those of `Metrics`.
pub mod Spawning
pub mod Policy
use steda.Prelude.{
  ℕ, ℤ, Bool, true, false, Option, none, some, ◌||◌, to_unsigned, if◌then◌else◌, ◌==◌,
}
use steda.Text.{Str, codes}
use steda.Duration.{Duration, from_secs}
use steda.Json.{F64, Json, JsonObject}
use steda.Identifiers.{TaskId}
use steda.Error.{Error, Result, ok, err, ok_or, literal, fail_if, map_err, map_sqlx_error}
use steda.Error as Errors
use steda.Types.{
  RetryStrategy, CancellationPolicy, SpawnConfig, default_config, SpawnResult, QueuePolicyOptions,
  new_policy_options, QueuePolicy,
}
use steda.Names.{validate_task_name, validate_queue_name}
use steda.Options.{duration_seconds, database_positive_i32, transpose_map, normalize_spawn_options}
use steda.World.{
  M, ◌>>=◌, ◌>>◌, pure, lift, call, call_mapped, Connection, pool, transaction, Database, PolicyRow,
}
use steda.Task.{Codec, encode, Task, from_parts}
use steda.Executor.{ExecutionRequest, Activity}
use steda.Handle.{TaskHandle}

pub record Queue (S : Type 0) : Type 0 where
  pub name : Str
  pub execution : ExecutionRequest S → Activity S

-- `Queue::from_parts`, without the counters that it creates.
unfoldable pub queue_from_parts :
    {S : Type 0} → Str → (ExecutionRequest S → Activity S) → Result (Queue S) Error
queue_from_parts name execution =
    Errors.◌>>=◌ (validate_queue_name name)
      λ valid. ok (record { name = valid; execution = execution })

-- `TaskHandle::new`.
abbrev pub new_handle : Str → Task → TaskId → TaskHandle
new_handle queue task task_id = record { queue = queue; task_ref = from_parts task queue task_id }

-- `Queue::task`.
unfoldable pub queue_task : {S : Type 0} → Queue S → Task → TaskId → Result TaskHandle Error
queue_task queue task task_id =
    Errors.◌>>=◌ (validate_task_name task.name) λ valid. ok (new_handle queue.name task task_id)

-- The result of a submission.
pub record SpawnedTask : Type 0 where
  pub handle : TaskHandle
  pub created : Bool

-- A spawn that is being configured.
pub record Spawn (Input : Type 0) : Type 0 where
  pub task : Task
  pub input : Input
  pub options : SpawnConfig

module _ {Input : Type 0} where
  abbrev pub new_spawn : Task → Input → Spawn Input
  new_spawn task input = record { task = task; input = input; options = default_config }

  abbrev pub with_max_attempts : ℕ → Spawn Input → Spawn Input
  with_max_attempts n s = record s { options = record s.options { max_attempts = some n } }

  abbrev pub with_retry_strategy : RetryStrategy → Spawn Input → Spawn Input
  with_retry_strategy r s = record s { options = record s.options { retry_strategy = some r } }

  abbrev pub with_headers : JsonObject → Spawn Input → Spawn Input
  with_headers h s = record s { options = record s.options { headers = some h } }

  abbrev pub with_cancellation : CancellationPolicy → Spawn Input → Spawn Input
  with_cancellation c s = record s { options = record s.options { cancellation = some c } }

  abbrev pub with_idempotency_key : Str → Spawn Input → Spawn Input
  with_idempotency_key k s = record s { options = record s.options { idempotency_key = some k } }

module _ {S : Type 0} (db : Database S) (as_secs_f64 : Duration → F64) (queue : Queue S) where
  unfoldable pub spawn_serialized : Str → Json → SpawnConfig → M S SpawnResult
  spawn_serialized task_name params options = do
    lift (validate_task_name task_name)
    payload ← lift (normalize_spawn_options as_secs_f64 options)
    call_mapped (db.spawn_task queue.name task_name params (Json.object payload))

  unfoldable pub spawn_typed :
      {Input : Type 0} → Codec Input → Task → Input → SpawnConfig → M S SpawnedTask
  unfolding spawn_serialized
  spawn_typed codec task input options = do
    params ← lift (encode codec input)
    spawned ← spawn_serialized task.name params options
    pure (record { handle = new_handle queue.name task spawned.task_id; created = spawned.created })

  -- `Spawn::submit`, and awaiting the builder.
  unfoldable pub submit : {Input : Type 0} → Codec Input → Spawn Input → M S SpawnedTask
  unfolding spawn_typed
  submit codec spawn = spawn_typed codec spawn.task spawn.input spawn.options

-- The optional values of a policy, as the database takes them.
abbrev pub policy_values : QueuePolicyOptions → Result (Option ℕ × Option ℕ) Error
policy_values policy = Errors.◌>>=◌ (transpose_map duration_seconds policy.cleanup_ttl) λ ttl.
    Errors.◌>>=◌ (transpose_map (λ n. database_positive_i32 n "cleanup_limit") policy.cleanup_limit)
      λ limit. ok (ttl, limit)

abbrev pub is_set : Option ℕ → Bool
is_set none = false
is_set (some n) = true

-- `queue_policy_from_row`.
unfoldable pub queue_policy_from_row : PolicyRow → Result QueuePolicy Error
queue_policy_from_row row =
    Errors.◌>>=◌
      (ok_or (to_unsigned row.cleanup_ttl_seconds)
        (Error.other (literal "PostgreSQL returned a negative queue cleanup TTL")))
      λ ttl. Errors.◌>>=◌ (ok_or (to_unsigned row.cleanup_limit) invalid_limit) λ limit.
        Errors.◌>>=◌ (fail_if (limit == 0) invalid_limit) λ valid. ok (record {
          queue_name = row.queue_name;
          cleanup_ttl = from_secs ttl;
          cleanup_limit = limit;
        })
  where
    invalid_limit : Error
    invalid_limit = Error.other (literal "PostgreSQL returned an invalid queue cleanup limit")

abbrev pub policy_from_optional : Option PolicyRow → Result (Option QueuePolicy) Error
policy_from_optional none = ok none
policy_from_optional (some row) =
    Errors.◌>>=◌ (queue_policy_from_row row) λ policy. ok (some policy)

-- A count of deleted tasks.
abbrev pub cleanup_count : ℤ → Result ℕ Error
cleanup_count n =
    ok_or (to_unsigned n) (Error.other (literal "PostgreSQL returned a negative cleanup count"))

module _ {S : Type 0} (db : Database S) where
  abbrev pub committed : {A : Type 0} → A → Result (Unit {0}) Error × S → Result A Error × S
  committed a (ok done, t) = (ok a, t)
  committed a (err e, t) = (err e, db.rollback t)

  -- The end of a transaction whose body has run: it commits, or it is dropped and rolled back.
  abbrev pub end_transaction : {A : Type 0} → Result A Error × S → Result A Error × S
  end_transaction (err e, s) = (err e, db.rollback s)
  end_transaction (ok a, s) = committed a (call db.commit s)

  -- A body between `begin` and `commit`.
  unfoldable pub in_transaction : {A : Type 0} → M S A → M S A
  in_transaction body = call db.begin >>= λ started s. end_transaction (body s)

  module _ (queue : Queue S) where
    unfoldable pub create_queue_body : Option ℕ × Option ℕ → M S (Unit {0})
    create_queue_body (ttl, limit) = do
      call (db.create_queue transaction queue.name)
      (if is_set ttl || is_set limit
          then call (db.set_queue_policy transaction queue.name ttl limit)
          else pure tt)

    unfoldable pub create_with_policy : QueuePolicyOptions → M S (Unit {0})
    unfolding in_transaction create_queue_body
    create_with_policy policy = do
      values ← lift (policy_values policy)
      in_transaction (create_queue_body values)

    unfoldable pub create : M S (Unit {0})
    unfolding create_with_policy
    create = create_with_policy new_policy_options

    unfoldable pub set_policy : QueuePolicyOptions → M S (Unit {0})
    set_policy options = do
      values ← lift (policy_values options)
      call (db.set_queue_policy pool queue.name values.0 values.1)

    unfoldable pub policy : M S (Option QueuePolicy)
    policy = do row ← call (db.get_queue_policy queue.name); lift (policy_from_optional row)

    unfoldable pub delete : M S (Unit {0})
    delete = call (db.drop_queue queue.name)

    unfoldable pub cleanup : M S ℕ
    cleanup = do
      tasks_deleted ← call (db.cleanup_tasks queue.name)
      lift (cleanup_count tasks_deleted)
