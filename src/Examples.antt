-- ===== src/Examples.antt =====
-- A small outside world, with concrete codecs, on which the theorems of the library are applied and
-- its definitions tested.
pub mod Names
pub mod Options
pub mod Tasks
pub mod Results
pub mod Contexts
pub mod Attempts
pub mod Handles
pub mod Workers
pub mod Queues
pub mod Tables
use steda.Prelude.{
  ℕ, ◌+◌, ◌≡◌, Bool, true, false, Option, none, some, List, [], ◌∷◌, pos, arith, if◌then◌else◌, leb,
  refl,
}
use steda.Text.{Str, codes}
use steda.Duration.{Duration, as_nanos, from_secs}
use steda.Json.{Json, JsonObject, Number, empty, entry, Items}
use steda.Identifiers.{TaskId, RunId}
use steda.Error.{Error, Result, ok, err}
use steda.Types.{ClaimedTask, SpawnResult}
use steda.World.{Database, Clock, IsClock, ResultRow, Timestamp, ClaimedRow}
use steda.Task.{Codec, TaskRefWire, TaskRef}
use steda.Task.References.{IsFaithful}
use steda.Context.{Calendar, TaskContext, TaskWaitCheckpoint}

-- The clock's time, the number of queries so far, and what supervision answers.
pub record Store : Type 0 where
  pub time : ℕ
  pub queries : ℕ
  pub outcome : Str

abbrev pub some_task : TaskId
some_task = record { into_uuid = 7 }

abbrev pub some_run : RunId
some_run = record { into_uuid = 9 }

abbrev pub running_row : ResultRow
running_row = record {
  task_name = codes "charge";
  state = codes "running";
  result = none;
  failure_reason = none;
}

abbrev pub completed_row : ResultRow
completed_row = record {
  task_name = codes "charge";
  state = codes "completed";
  result = some (Json.boolean true);
  failure_reason = none;
}

-- The task's result is there from the second query on.
abbrev pub answer : ℕ → ResultRow
answer n = if leb 1 n then completed_row else running_row

abbrev pub test_database : Database Store
test_database = record {
  spawn_task = λ q n p o s. (ok (record { task_id = some_task; created = true }), s);
  cancel_task = λ q t s. (ok tt, s);
  retry_task = λ q t s. (ok some_run, s);
  create_queue = λ x q s. (ok tt, s);
  set_queue_policy = λ x q t l s. (ok tt, s);
  get_queue_policy = λ q s. (ok none, s);
  drop_queue = λ q s. (ok tt, s);
  list_queues = λ s. (ok [], s);
  cleanup_tasks = λ q s. (ok (pos 0), s);
  cleanup_all_queues = λ s. (ok [], s);
  get_task_result = λ q t s. (ok (some (answer s.queries)), record s { queries = s.queries + 1 });
  claim_tasks = λ q w l b n s. (ok [], s);
  supervise_run = λ q r l s. (ok s.outcome, s);
  get_task_checkpoint_states = λ q t r s. (ok [], s);
  set_task_checkpoint_state = λ q t n v r s. (ok (v, true), s);
  schedule_run = λ q r w s. (ok (codes "suspended"), s);
  complete_run = λ q r v s. (ok true, s);
  fail_run = λ q r f s. (ok tt, s);
  current_time = λ s. (ok s.time, s);
  begin = λ s. (ok tt, s);
  commit = λ s. (ok tt, s);
  rollback = λ s. s;
}

abbrev pub test_clock : Clock Store
test_clock = record { now = λ s. s.time; sleep = λ d s. record s { time = s.time + as_nanos d } }

pub test_clock-IsClock : IsClock test_clock
test_clock-IsClock = record { slept = λ d s. omega arith }

-- A value that is JSON already.
abbrev pub json_codec : Codec Json
json_codec = record { to_value = λ v. ok v; from_value = λ j. ok j }

pub json_codec-IsFaithful : IsFaithful json_codec
json_codec-IsFaithful v j e = ground arith

abbrev pub read_number : Json → Result ℕ Str
read_number (Json.number (Number.pos_int n)) = ok n
read_number _ = err (codes "invalid type")

abbrev pub number_codec : Codec ℕ
number_codec = record {
  to_value = λ n. ok (Json.number (Number.pos_int n));
  from_value = read_number;
}

abbrev pub test_calendar : Calendar
test_calendar = record {
  timestamps = number_codec;
  signed = λ d. ok d;
  checked_add = λ t d. some (t + d.secs);
}

abbrev pub idle : Store
idle = record { time = 0; queries = 0; outcome = codes "running" }

abbrev pub charge_task : ClaimedTask
charge_task = record {
  run_id = some_run;
  task_id = some_task;
  task_name = codes "charge";
  attempt = 1;
  params = Json.null;
  headers = none;
}

abbrev pub charge_context : TaskContext
charge_context = record { queue_name = codes "orders"; task = charge_task; headers = empty }
