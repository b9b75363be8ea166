-- ===== src/Metrics.antt =====
-- src/metrics.rs: the counters of a queue handle, and the guard that records one execution. The
-- counters are shared by reference, so each operation takes their state and returns the new one.
pub mod Accounting
use steda.Prelude.{ℕ, ◌+◌, ◌-◌, min, Bool, true, false, if◌then◌else◌}
use steda.Options.{u64_max}

pub record QueueMetrics : Type 0 where
  pub claimed_runs : ℕ
  pub claim_errors : ℕ
  pub executions : ℕ
  pub completed_executions : ℕ
  pub failed_executions : ℕ
  pub lease_lost_executions : ℕ
  pub cancelled_executions : ℕ
  pub suspended_executions : ℕ
  pub unhandled_executions : ℕ
  pub execution_duration_nanoseconds : ℕ

unfoldable pub new : QueueMetrics
new = record {
  claimed_runs = 0;
  claim_errors = 0;
  executions = 0;
  completed_executions = 0;
  failed_executions = 0;
  lease_lost_executions = 0;
  cancelled_executions = 0;
  suspended_executions = 0;
  unhandled_executions = 0;
  execution_duration_nanoseconds = 0;
}

-- `u64::try_from(value).unwrap_or(u64::MAX)`.
abbrev pub clamp_u64 : ℕ → ℕ
clamp_u64 value = min value u64_max

-- The new value of a counter: `current.saturating_add(value)`.
unfoldable pub increment : ℕ → ℕ → ℕ
increment current value = min (current + value) u64_max

unfoldable pub record_claimed : ℕ → QueueMetrics → QueueMetrics
unfolding increment
record_claimed count m = record m { claimed_runs = increment m.claimed_runs (clamp_u64 count) }

unfoldable pub record_claim_error : QueueMetrics → QueueMetrics
unfolding increment
record_claim_error m = record m { claim_errors = increment m.claim_errors 1 }

pub data ExecutionOutcome : Type 0 where
  completed failed lease_lost cancelled suspended : ExecutionOutcome

-- The counter that `record` picks by the outcome, incremented.
unfoldable pub count_outcome : ExecutionOutcome → QueueMetrics → QueueMetrics
unfolding increment
count_outcome completed m = record m { completed_executions = increment m.completed_executions 1 }
count_outcome failed m = record m { failed_executions = increment m.failed_executions 1 }
count_outcome lease_lost m = record m {
  lease_lost_executions = increment m.lease_lost_executions 1;
}
count_outcome cancelled m = record m { cancelled_executions = increment m.cancelled_executions 1 }
count_outcome suspended m = record m { suspended_executions = increment m.suspended_executions 1 }

-- The guard of one execution. Times are nanoseconds of a monotonic clock.
pub record TaskExecution : Type 0 where
  pub start : ℕ
  pub finished : Bool

unfoldable pub start : ℕ → TaskExecution
start now = record { start = now; finished = false }

abbrev pub count_execution : QueueMetrics → QueueMetrics
unfolding increment
count_execution m = record m { executions = increment m.executions 1 }

abbrev pub add_duration : ℕ → QueueMetrics → QueueMetrics
unfolding increment
add_duration elapsed m = record m {
  execution_duration_nanoseconds = increment m.execution_duration_nanoseconds (clamp_u64 elapsed);
}

-- `TaskExecution::record`.
unfoldable pub record_outcome : TaskExecution → ExecutionOutcome → ℕ → QueueMetrics → QueueMetrics
unfolding count_outcome
record_outcome execution outcome now m =
    add_duration (now - execution.start) (count_outcome outcome (count_execution m))

-- `Drop::drop`.
unfoldable pub drop : TaskExecution → ℕ → QueueMetrics → QueueMetrics
unfolding increment
drop execution now m =
    if execution.finished
    then m
    else add_duration (now - execution.start) (
        let counted = count_execution m in
        record counted { unhandled_executions = increment counted.unhandled_executions 1 })

-- `TaskExecution::finish`, which takes the guard by value and so drops it.
unfoldable pub finish : TaskExecution → ExecutionOutcome → ℕ → QueueMetrics → QueueMetrics
unfolding record_outcome drop
finish execution outcome now m =
    drop (record execution { finished = true }) now (record_outcome execution outcome now m)
