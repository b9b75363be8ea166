-- ===== src/Examples/Results.antt =====
-- The theorems on the wait for a result, in the small world of the examples.
use steda.Prelude.{◌-◌, ◌≤◌, ◌≡◌, true, arith, refl, none, some, Option}
use steda.Text.{codes, str_eq}
use steda.Duration.{Duration, as_nanos, from_secs}
use steda.Json.{Json}
use steda.Types.{TaskResultSnapshot, is_terminal}
use steda.Db.{
  judge, await_task_result_snapshot, await_loop, poll, fetch_task_result_snapshot,
  snapshot_from_row, snapshot_from_state,
}
use steda.Db.Polling.{await_task_result_snapshot-IsTerminal}
use steda.Db.Deadline.{Returns, KeepsTime, await_task_result_snapshot-Returns}
use steda.Db.Timeouts.{await_task_result_snapshot-deadline}
use steda.Examples.{Store, some_task, test_database, test_clock, test_clock-IsClock, idle}

abbrev after_two_queries : Store
after_two_queries = record idle { time = 50_000_000; queries = 2 }

await_task_result_snapshot-IsTerminal_example :
    is_terminal (TaskResultSnapshot.completed (Json.boolean true)) ≡ true
unfolding await_task_result_snapshot await_loop poll fetch_task_result_snapshot snapshot_from_row
    snapshot_from_state judge str_eq
await_task_result_snapshot-IsTerminal_example =
    await_task_result_snapshot-IsTerminal test_database test_clock (codes "orders") (codes "charge")
      some_task 5 none idle {a = TaskResultSnapshot.completed (Json.boolean true)}
      {u = after_two_queries} refl

test_database-KeepsTime :
    KeepsTime test_database test_clock (codes "orders") (codes "charge") some_task
test_database-KeepsTime s = omega arith

await_task_result_snapshot-Returns_example : Returns (
    await_task_result_snapshot test_database test_clock 21
      (codes "orders")
      (codes "charge")
      some_task
      (some (from_secs 1))
      idle)
await_task_result_snapshot-Returns_example =
    await_task_result_snapshot-Returns test_database test_clock (codes "orders") (codes "charge")
      some_task test_clock-IsClock test_database-KeepsTime 20 (from_secs 1) idle (omega arith)

-- A wait of no time gives up after one query.
await_task_result_snapshot-deadline_example :
    (t : Duration) × (◌≡◌ {A = Option Duration} (some (from_secs 0)) (some t))
    × (as_nanos t ≤ test_clock.now (record idle { queries = 1 }) - test_clock.now idle)
unfolding await_task_result_snapshot await_loop poll fetch_task_result_snapshot snapshot_from_row
    snapshot_from_state judge str_eq
await_task_result_snapshot-deadline_example =
    await_task_result_snapshot-deadline test_database test_clock (codes "orders") (codes "charge")
      some_task 5 (some (from_secs 0)) idle {u = record idle { queries = 1 }} refl
