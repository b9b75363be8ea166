-- ===== src/Names.antt =====
-- The names that reach storage: task names (src/task.rs), queue names (src/queue.rs) and the
-- namespaced identities of checkpoints (src/context.rs).
pub mod Valid
pub mod Storage
pub mod Keyed
pub mod Disjoint
use steda.Prelude.{ℕ, ◌+◌, ◌-◌, Bool, true, false, [], ◌∷◌, ◌++◌, if◌then◌else◌, ltb, is_empty}
use steda.Text.{Str, codes, byte_len, trim, decimal}
use steda.Identifiers.{TaskId, Uuid}
use steda.Error.{Error, Result, ok, err, literal, format, Argument}

abbrev pub max_task_name_bytes : ℕ
max_task_name_bytes = 1024

abbrev pub max_queue_name_length : ℕ
max_queue_name_length = 33

abbrev pub max_workflow_storage_name_bytes : ℕ
max_workflow_storage_name_bytes = 1024

unfoldable pub validate_task_name : Str → Result (Unit {0}) Error
validate_task_name name =
    if is_empty (trim name)
    then err (Error.invalid_options (literal "task name must be provided"))
    else if ltb max_task_name_bytes (byte_len name)
    then err (
        Error.invalid_options
          (format "task name must be at most {} bytes" (Argument.number max_task_name_bytes ∷ [])))
    else ok tt

unfoldable pub validate_queue_name : Str → Result Str Error
validate_queue_name queue_name =
    if is_empty (trim queue_name)
    then err Error.missing_queue_name
    else if ltb max_queue_name_length (byte_len queue_name)
    then err (Error.queue_name_too_long queue_name max_queue_name_length)
    else ok queue_name

abbrev pub step_prefix : Str
step_prefix = codes "$step:"

abbrev pub keyed_step_prefix : Str
keyed_step_prefix = codes "$step-keyed:"

abbrev pub sleep_prefix : Str
sleep_prefix = codes "$sleep:"

abbrev pub task_wait_prefix : Str
task_wait_prefix = codes "$await-task:"

-- `checked_sub(prefix.len())`, which the code expects to succeed: its prefixes are the constants
-- above, of at most 12 bytes.
abbrev pub maximum_identity_bytes : Str → ℕ
maximum_identity_bytes prefix = max_workflow_storage_name_bytes - byte_len prefix

unfoldable pub workflow_storage_name : Str → Str → Result Str Error
workflow_storage_name prefix name =
    if is_empty (trim name)
    then err (Error.invalid_options (literal "workflow identity must not be empty"))
    else if ltb (maximum_identity_bytes prefix) (byte_len name)
    then err (
        Error.invalid_options (
          format "workflow identity must be at most {} bytes"
            (Argument.number (maximum_identity_bytes prefix) ∷ [])))
    else ok (prefix ++ name)

-- `format!("{}:{name}{key}", name.len())`.
abbrev pub keyed_identity : Str → Str → Str
keyed_identity name key = decimal (byte_len name) ++ (58 ∷ (name ++ key))

unfoldable pub keyed_workflow_storage_name : Str → Str → Str → Result Str Error
keyed_workflow_storage_name prefix name key =
    if is_empty (trim name)
    then err (Error.invalid_options (literal "workflow identity must not be empty"))
    else if is_empty (trim key)
    then err (Error.invalid_options (literal "workflow instance key must not be empty"))
    else if ltb (maximum_identity_bytes prefix) (byte_len (keyed_identity name key))
    then err (
        Error.invalid_options (
          format "keyed workflow identity must be at most {} bytes"
            (Argument.number (maximum_identity_bytes prefix) ∷ [])))
    else ok (prefix ++ keyed_identity name key)

-- The checkpoint name of a wait for a task of another queue. How a UUID is displayed is the uuid
-- crate's.
unfoldable pub task_wait_name : (Uuid → Str) → Str → TaskId → Str
task_wait_name display_uuid queue_name task_id =
    task_wait_prefix ++ (queue_name ++ (58 ∷ display_uuid task_id.into_uuid))
