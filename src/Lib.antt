-- ===== src/Lib.antt =====
-- Steda: durable task execution on PostgreSQL. The client, in Rust: how tasks, queues, steps and
-- options are named and validated before they reach storage, how rows of the database are read, how a
-- worker claims, executes and drains attempts, and how one attempt runs with durable steps, sleeps and
-- waits. And the database's side, in SQL: how tasks, their runs and checkpoints change.
--
-- The database is authoritative in the program, and other clients act on it at any time. So for the
-- client its stored procedures are the record `World.Database` of operations on a state that each of
-- them may change in any way; the client's theorems take it as a parameter, and where they rely on
-- what a procedure promises they say so (`WritesWhatIsGiven`, `ClaimsAtMost`, `ClaimsSupported`), as
-- those on termination do where they rely on the user's code coming to an end (`AllFinish`): a future
-- may stay pending for ever, then its attempt and a drain go on, since a drain has no time limit. The
-- clock is `World.Clock`, where a sleep lasts at least its duration.
--
-- The files and the code that they model:
--   Prelude: names of the libraries, and lemmas on lists and Booleans.
--   Text, Duration, Json, Identifiers: strings as lists of Unicode scalar values, durations in
--     nanoseconds, JSON values, and the identifiers of src/types.rs.
--   Error: src/error.rs. A formatted message keeps its template and arguments; it is not rendered.
--   Names: validate_task_name (src/task.rs), validate_queue_name (src/queue.rs), and
--     workflow_storage_name, keyed_workflow_storage_name and the names of waits (src/context.rs).
--   Types: the public types of src/types.rs.
--   Options: normalize_spawn_options with all that it calls (src/queue.rs), duration_seconds
--     (src/db.rs). An f64 is its bit pattern; how a duration becomes one is a parameter.
--   Metrics: src/metrics.rs. An operation takes the counters and returns the new ones.
--   World, Run: what is outside the crate, and code over it that fails or does not come back.
--   Task: TaskRef with its wire form, decode_snapshot and decode_result (src/task.rs). How serde
--     converts a value is a parameter, a `Codec`.
--   Db: claim_tasks, supervise_run, fetch_task_result_snapshot and await_task_result_snapshot
--     (src/db.rs).
--   Context: TaskContext of src/context.rs. Its state `Cell` is the checkpoint cache beside the
--     outside state; the lock of a checkpoint makes each call one critical section.
--   Executor: execute_task of src/executor.rs, over the service of src/execution.rs. User code is an
--     `Activity`, a function from what it has found at its polls so far to what it does at the next: it
--     returns, panics, or acts and stays pending, for ever perhaps. A list of turns says whether the
--     task or its supervisor is polled next, the supervisor whenever its `sleep(interval)` may have
--     passed. An attempt's result comes with the way that its metrics guard ended.
--   Handle: TaskHandle (src/task.rs), over the queue operations of src/queue.rs that it calls.
--   Queue: Queue (src/queue.rs) with Spawn and SpawnedTask (src/task.rs): spawning, creation and policy
--     in transactions, cleanup. The variants on a caller's connection make the same calls.
--   Steda: src/steda.rs, the root handle and the Tower layers of its builder, as functions on services.
--   Worker: src/worker.rs. The builder with its registry, the classification of errors, and in
--     Worker.Loop run_worker_loop as a machine: its state is the phase (where in the loop the code
--     stands), the join set, the terminal error, the counters and the outside state. An input says
--     what the runtime finds: an attempt that has ended or panicked, the shutdown, or none of them. An
--     attempt of the join set acts on the outside when it ends, under the schedule of its input, so
--     that attempts do not interleave with each other; their order of ending is arbitrary. The clones
--     of a queue share their counters; a loop starts on any counters.
--   Sql: the tables of one queue as sql/steda.sql creates them, and its functions on tasks: Spawns,
--     Attempts (locks, completion, suspension, failure and retry, cancellation), Supervision (with the
--     reaping of leases), Claims (with the maintenance before a claim), Checkpoints. A table is a
--     function from its key. A call takes the tables and returns new ones, or raises, which rolls back
--     what it did; calls of all sessions form one sequence, as their locks order them. Calls is that
--     sequence, Consistency what holds of the tables, Changes how each call changes them.
--   Examples: a small world, on which the theorems are applied.
-- Context calls Names, Task and Db; Executor calls Context, Db and Metrics; Handle calls Task and Db;
-- Queue calls Options and Handle; Worker calls Queue, Executor, Db and Metrics.
--
-- Bounds. Machine integers are natural numbers with their limits written out; counters saturate.
-- The polling loop has fuel for its rounds, and `none` means that it ran out: every round but the
-- last sleeps at least 50 ms, so one round more than the timeout has spans of 50 ms is enough. The
-- race has the schedule for its fuel.
--
-- Not modelled: of sql/steda.sql, the parsing of spawn options, the administration of queues,
-- retention cleanup and what else deletes tasks with their checkpoints (cleanup_tasks, drop_queue),
-- and the checks of queue and task names (blank, length); the unique index on attempts and the
-- range of integer columns do not raise; which unlocked rows a scan visits is an argument of a
-- claim, and the clock, generated UUIDs, the comparison of jsonb and the floats of a retry delay
-- are a record `Server`. The names of src/workflow.rs, which the context takes as plain strings;
-- re-exports, Debug, Display and logging, which carry no behaviour of tasks; connecting to the
-- server; and the Tower layers around the execution service, which the application provides.
pub mod Prelude
pub mod Text
pub mod Duration
pub mod Json
pub mod Identifiers
pub mod Error
pub mod Names
pub mod Types
pub mod Options
pub mod Metrics
pub mod World
pub mod Task
pub mod Db
pub mod Run
pub mod Context
pub mod Executor
pub mod Handle
pub mod Queue
pub mod Steda
pub mod Worker
pub mod Sql
pub mod Examples
