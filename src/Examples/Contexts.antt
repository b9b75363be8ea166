-- ===== src/Examples/Contexts.antt =====
-- The theorems on the durable context, in the small world of the examples.
use steda.Prelude.{◌+◌, ◌≡◌, ◌≢◌, true, arith, refl, none, some, ◌∷◌, [], ◌++◌}
use steda.Text.{Str, codes, str_eq, byte_len, trim, trim_start, is_whitespace}
use steda.Identifiers.{Uuid}
use steda.Json.{Json, Number, empty, entry, get, insert}
use steda.Error.{Error, ok, err, Result}
use steda.Task.{Codec, TaskRef, decode_result}
use steda.Run.{Run}
use steda.Names.{workflow_storage_name, task_wait_name}
use steda.Db.{
  judge, await_task_result_snapshot, await_loop, poll, fetch_task_result_snapshot,
  snapshot_from_row, snapshot_from_state,
}
use steda.Context.{
  Cell, cached_checkpoint, cache_checkpoint, persist_checkpoint, execute_checkpoint, checkpoint,
  commit_wake_time, wake_time, sleep_until, schedule_run, schedule_outcome, await_task_ref,
  saved_wait, wait_body, TaskWaitCheckpoint,
}
use steda.Context.Steps.{WritesWhatIsGiven, checkpoint_twice}
use steda.Context.Immutable.{Keeps, checkpoint-Keeps, sleep_until-Keeps}
use steda.Context.Sleeps.{wake_time_twice}
use steda.Context.Waits.{await_task_ref-ok}
use steda.Examples.{
  Store, some_task, test_database, test_clock, test_calendar, idle, json_codec,
  json_codec-IsFaithful, charge_context,
}

test_database-WritesWhatIsGiven : WritesWhatIsGiven test_database
test_database-WritesWhatIsGiven queue task name value run s t state e = ground arith

abbrev fresh : Cell Store
fresh = record { store = idle; checkpoint_cache = empty }

abbrev with_charge : Cell Store
with_charge = record {
  store = idle;
  checkpoint_cache = entry (codes "charge") (Json.boolean true) empty;
}

abbrev returns : Json → Run (Cell Store) Json
returns v c = some (ok v, c)

returns-Keeps : (v : Json) → Keeps (returns v)
returns-Keeps v k c d r j e h = ground arith

-- The replay passes another body, which is not run.
checkpoint_twice_example :
    checkpoint test_database charge_context json_codec
      (codes "charge")
      (returns Json.null)
      with_charge
    ≡ some (ok (Json.boolean true), with_charge)
unfolding checkpoint execute_checkpoint cached_checkpoint persist_checkpoint cache_checkpoint get
    insert str_eq
checkpoint_twice_example =
    checkpoint_twice test_database charge_context json_codec json_codec-IsFaithful
      test_database-WritesWhatIsGiven (codes "charge") (returns (Json.boolean true))
      (returns Json.null) fresh with_charge (Json.boolean true) refl

abbrev with_both : Cell Store
with_both = record {
  store = idle;
  checkpoint_cache =
      entry (codes "charge") (Json.boolean true) (entry (codes "ship") Json.null empty);
}

checkpoint-Keeps_example :
    get (codes "charge") with_both.checkpoint_cache ≡ some (Json.boolean true)
unfolding checkpoint execute_checkpoint cached_checkpoint persist_checkpoint cache_checkpoint get
    insert str_eq
checkpoint-Keeps_example =
    checkpoint-Keeps test_database charge_context json_codec (codes "ship") (returns Json.null)
      (returns-Keeps Json.null) (codes "charge") with_charge with_both (ok Json.null)
      (Json.boolean true) refl refl

abbrev asleep : Cell Store
asleep = record {
  store = idle;
  checkpoint_cache =
      entry (codes "charge") (Json.boolean true)
        (entry (codes "$sleep:nap") (Json.number (Number.pos_int 60)) empty);
}

sleep_until-Keeps_example : get (codes "charge") asleep.checkpoint_cache ≡ some (Json.boolean true)
unfolding sleep_until wake_time commit_wake_time schedule_run schedule_outcome cached_checkpoint
    persist_checkpoint cache_checkpoint get insert str_eq workflow_storage_name trim trim_start
    is_whitespace byte_len
sleep_until-Keeps_example =
    sleep_until-Keeps test_database charge_context test_calendar (codes "nap") 60 (codes "charge")
      with_charge asleep (err Error.suspended) (Json.boolean true) refl refl

abbrev with_nap : Cell Store
with_nap = record {
  store = idle;
  checkpoint_cache = entry (codes "nap") (Json.number (Number.pos_int 60)) empty;
}

-- A later attempt, whose cache also has the value of a step that was committed after the nap.
abbrev with_nap_and_charge : Cell Store
with_nap_and_charge = record {
  store = record idle { time = 70_000_000 };
  checkpoint_cache =
      entry (codes "nap") (Json.number (Number.pos_int 60))
        (entry (codes "charge") (Json.boolean true) empty);
}

with_nap-kept :
    (k : Str) (j : Json)
    → get k with_nap.checkpoint_cache ≡ some j
    → get k with_nap_and_charge.checkpoint_cache ≡ some j
unfolding get
with_nap-kept k j h = ground arith

wake_time_twice_example :
    wake_time test_database test_calendar charge_context (codes "nap") 90 with_nap_and_charge
    ≡ some (ok 60, with_nap_and_charge)
unfolding wake_time commit_wake_time cached_checkpoint persist_checkpoint cache_checkpoint get
    insert str_eq
wake_time_twice_example =
    wake_time_twice test_database test_calendar charge_context (codes "nap") 60 90 fresh with_nap
      with_nap_and_charge 60 refl with_nap-kept

-- The checkpoints of waits for a task named charge.
abbrev read_output : Json → Result (TaskWaitCheckpoint Json) Str
read_output j = ok (record { task_name = codes "charge"; output = j })

abbrev wait_codec : Codec (TaskWaitCheckpoint Json)
wait_codec = record { to_value = λ w. ok w.output; from_value = read_output }

abbrev shown : Uuid → Str
shown u = (0x10000 + u) ∷ []

abbrev other_task : TaskRef
other_task = record { queue_name = codes "q"; task_name = codes "charge"; task_id = some_task }

abbrev wait_name : Str
wait_name = codes "$await-task:q:" ++ shown 7

abbrev waited : Cell Store
waited = record {
  store = record idle { time = 50_000_000; queries = 2 };
  checkpoint_cache = entry wait_name (Json.boolean true) empty;
}

await_task_ref-ok_example :
    (other_task.queue_name ≢ charge_context.queue_name)
    × (saved : TaskWaitCheckpoint Json) × (checkpoint test_database charge_context wait_codec
          (task_wait_name shown (codes "q") some_task)
          (wait_body test_database test_clock shown json_codec wait_codec 5 charge_context
            other_task none)
          fresh
        ≡ some (ok saved, waited))
    × (saved.task_name ≡ codes "charge")
    × (saved.output ≡ Json.boolean true)
unfolding await_task_ref saved_wait wait_body checkpoint execute_checkpoint cached_checkpoint
    persist_checkpoint cache_checkpoint get insert str_eq task_wait_name decode_result
    await_task_result_snapshot await_loop poll fetch_task_result_snapshot snapshot_from_row
    snapshot_from_state judge
await_task_ref-ok_example =
    await_task_ref-ok test_database test_clock shown json_codec wait_codec 5 charge_context
      other_task none fresh waited (Json.boolean true) refl
