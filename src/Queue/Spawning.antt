-- ===== src/Queue/Spawning.antt =====
-- What a spawn writes, and that an invalid one writes nothing.
use steda.Prelude.{◌≡◌, refl, arith}
use steda.Text.{Str}
use steda.Duration.{Duration}
use steda.Json.{F64, Json, JsonObject, get}
use steda.Error.{Error, SqlxError, Result, ok, err}
use steda.Types.{SpawnConfig, SpawnResult}
use steda.World.{Database}
use steda.Names.{validate_task_name}
use steda.Options.{normalize_spawn_options}
use steda.Options.Stages.{IsValidConfig}
use steda.Options.Accepted.{normalize_spawn_options-Succeeds_iff}
use steda.Options.Payload.{stored_option, normalize_spawn_options-get}
use steda.Task.{Codec, encode, Task}
use steda.Queue.{Queue, SpawnedTask, new_handle, spawn_serialized, spawn_typed}

module _ {S Input : Type 0} (db : Database S) (as_secs_f64 : Duration → F64) (queue : Queue S)
    (codec : Codec Input) where
  -- What one submission did: one call of the database, with this queue, the task's name, the encoded
  -- input and the payload of a valid configuration. The result repeats the row that it returned.
  pub record Submitted (task : Task) (input : Input) (options : SpawnConfig) (s t : S)
      (spawned : SpawnedTask) : Type 0 where
    pub params : Json
    pub payload : JsonObject
    pub row : SpawnResult
    pub encoded : encode codec input ≡ ok params
    pub named : validate_task_name task.name ≡ ok tt
    pub valid : IsValidConfig as_secs_f64 options
    pub stored : (k : Str) → get k payload ≡ stored_option as_secs_f64 options k
    pub written : db.spawn_task queue.name task.name params (Json.object payload) s ≡ (ok row, t)
    pub handle : spawned.handle ≡ new_handle queue.name task row.task_id
    pub created : spawned.created ≡ row.created

  -- A submission that succeeds had a valid name and a valid configuration, and made the one call of
  -- the database that they describe: the encoded input, and a payload that holds under each key what
  -- the configuration says. The handle names the queue, the task and the row's identifier.
  pub spawn_typed-Submitted :
      (task : Task) (input : Input) (options : SpawnConfig) (s t : S) (spawned : SpawnedTask)
      → spawn_typed db as_secs_f64 queue codec task input options s ≡ (ok spawned, t)
      → Submitted task input options s t spawned
  unfolding spawn_typed spawn_serialized
  spawn_typed-Submitted task input options s t spawned e =
      go (encode codec input) refl (validate_task_name task.name) refl
        (normalize_spawn_options as_secs_f64 options) refl
    where
      last :
          (j : Json)
          → encode codec input ≡ ok j
          → validate_task_name task.name ≡ ok tt
          → (payload : JsonObject) → normalize_spawn_options as_secs_f64 options ≡ ok payload
          → (p : Result SpawnResult SqlxError × S)
          → db.spawn_task queue.name task.name j (Json.object payload) s ≡ p
          → Submitted task input options s t spawned
      last j p q payload r (err x, u) w = absurd (ground arith)
      last j p q payload r (ok row, u) w = record {
        params = j;
        payload = payload;
        row = row;
        encoded = p;
        named = q;
        valid = (normalize_spawn_options-Succeeds_iff as_secs_f64 options).0 (payload, r);
        stored = λ k. normalize_spawn_options-get as_secs_f64 options k r;
        written = ground arith;
        handle = ground arith;
        created = ground arith;
      }

      go :
          (a : Result Json Error)
          → encode codec input ≡ a
          → (b : Result (Unit {0}) Error) → validate_task_name task.name ≡ b
          → (c : Result JsonObject Error) → normalize_spawn_options as_secs_f64 options ≡ c
          → Submitted task input options s t spawned
      go (err x) p b q c r = absurd (ground arith)
      go (ok j) p (err x) q c r = absurd (ground arith)
      go (ok j) p (ok done) q (err x) r = absurd (ground arith)
      go (ok j) p (ok done) q (ok payload) r =
          last j p q payload r (db.spawn_task queue.name task.name j (Json.object payload) s) refl

  -- A submission with an invalid configuration fails before it reaches the database.
  pub spawn_typed-invalid :
      (task : Task) (input : Input) (options : SpawnConfig) (s : S)
      → ¬ IsValidConfig as_secs_f64 options
      → (e : Error) × (spawn_typed db as_secs_f64 queue codec task input options s ≡ (err e, s))
  unfolding spawn_typed spawn_serialized
  spawn_typed-invalid task input options s invalid =
      go (encode codec input) refl (validate_task_name task.name) refl
        (normalize_spawn_options as_secs_f64 options) refl
    where
      go :
          (a : Result Json Error)
          → encode codec input ≡ a
          → (b : Result (Unit {0}) Error) → validate_task_name task.name ≡ b
          → (c : Result JsonObject Error) → normalize_spawn_options as_secs_f64 options ≡ c
          → (e : Error) × (spawn_typed db as_secs_f64 queue codec task input options s ≡ (err e, s))
      go (err x) p b q c r = (x, ground arith)
      go (ok j) p (err x) q c r = (x, ground arith)
      go (ok j) p (ok done) q (err x) r = (x, ground arith)
      go (ok j) p (ok done) q (ok payload) r =
          absurd
            (invalid ((normalize_spawn_options-Succeeds_iff as_secs_f64 options).0 (payload, r)))
