-- ===== src/Task.antt =====
-- src/task.rs: task definitions, durable references with their wire form, and the decoding of
-- result snapshots. How serde converts a value is a parameter, a `Codec`.
pub mod References
pub mod Snapshots
use steda.Prelude.{ℕ, Bool, true, false, Option, none, some, [], ◌∷◌}
use steda.Text.{Str}
use steda.Json.{Json}
use steda.Identifiers.{TaskId}
use steda.Error.{Error, Result, ok, err, map_err, literal, format, Argument, ◌>>=◌, ◌>>◌}
use steda.Types.{TaskState, TaskResultSnapshot}
use steda.Names.{validate_task_name, validate_queue_name}

-- How values of a type cross serde_json.
pub record Codec (T : Type 0) : Type 0 where
  pub to_value : T → Result Json Str
  pub from_value : Json → Result T Str

abbrev pub encode : {T : Type 0} → Codec T → T → Result Json Error
encode codec v = map_err Error.serialization (codec.to_value v)

abbrev pub decode : {T : Type 0} → Codec T → Json → Result T Error
decode codec j = map_err Error.serialization (codec.from_value j)

-- `Task`, without its phantom types.
pub record Task : Type 0 where
  pub name : Str

-- `TaskRef`, without its phantom types.
pub record TaskRef : Type 0 where
  pub queue_name : Str
  pub task_name : Str
  pub task_id : TaskId

-- `TaskRef::from_parts`.
abbrev pub from_parts : Task → Str → TaskId → TaskRef
from_parts task queue_name task_id = record {
  queue_name = queue_name;
  task_name = task.name;
  task_id = task_id;
}

pub record TaskRefWire : Type 0 where
  pub queue_name : Str
  pub task_name : Str
  pub task_id : TaskId

unfoldable pub serialize : Codec TaskRefWire → TaskRef → Result Json Error
serialize wire_codec r =
    encode wire_codec
      (record { queue_name = r.queue_name; task_name = r.task_name; task_id = r.task_id })

unfoldable pub deserialize : Codec TaskRefWire → Json → Result TaskRef Error
deserialize wire_codec j = do
  wire ← decode wire_codec j
  validate_task_name wire.task_name
  queue_name ← validate_queue_name wire.queue_name
  ok (record { queue_name = queue_name; task_name = wire.task_name; task_id = wire.task_id })

pub data TaskSnapshot (T : Type 0) : Type 0 where
  pending running sleeping : TaskSnapshot T
  completed : (result : T) → TaskSnapshot T
  failed : (failure : Json) → TaskSnapshot T
  cancelled : TaskSnapshot T

unfoldable pub state : {T : Type 0} → TaskSnapshot T → TaskState
state TaskSnapshot.pending = TaskState.pending
state TaskSnapshot.running = TaskState.running
state TaskSnapshot.sleeping = TaskState.sleeping
state (TaskSnapshot.completed _) = TaskState.completed
state (TaskSnapshot.failed _) = TaskState.failed
state TaskSnapshot.cancelled = TaskState.cancelled

-- `TaskSnapshot::is_terminal`.
unfoldable pub is_terminal_snapshot : {T : Type 0} → TaskSnapshot T → Bool
is_terminal_snapshot (TaskSnapshot.completed _) = true
is_terminal_snapshot (TaskSnapshot.failed _) = true
is_terminal_snapshot TaskSnapshot.cancelled = true
is_terminal_snapshot _ = false

module _ {T : Type 0} (codec : Codec T) where
  unfoldable pub decode_snapshot : TaskResultSnapshot → Result (TaskSnapshot T) Error
  decode_snapshot TaskResultSnapshot.pending = ok TaskSnapshot.pending
  decode_snapshot TaskResultSnapshot.running = ok TaskSnapshot.running
  decode_snapshot TaskResultSnapshot.sleeping = ok TaskSnapshot.sleeping
  decode_snapshot (TaskResultSnapshot.completed result) =
      decode codec result >>= λ v. ok (TaskSnapshot.completed v)
  decode_snapshot (TaskResultSnapshot.failed failure) = ok (TaskSnapshot.failed failure)
  decode_snapshot TaskResultSnapshot.cancelled = ok TaskSnapshot.cancelled

  abbrev pub non_terminal : Error
  non_terminal = Error.other (literal "task result wait returned a non-terminal snapshot")

  unfoldable pub decode_result : TaskResultSnapshot → Result T Error
  decode_result (TaskResultSnapshot.completed result) = decode codec result
  decode_result (TaskResultSnapshot.failed failure) = err (Error.task_failed failure)
  decode_result TaskResultSnapshot.cancelled = err Error.cancelled
  decode_result _ = err non_terminal
