-- ===== src/Metrics/Accounting.antt =====
-- Every execution is counted once, by its outcome, and no counter ever falls or wraps.
use steda.Prelude.{
  ℕ, suc, ◌+◌, ◌≤◌, ◌≡◌, arith, List, [], ◌∷◌, length, Bool, true, false, if◌then◌else◌,
}
use steda.Options.{u64_max}
use steda.Metrics.{
  record_claim_error, record_claimed, new, QueueMetrics, ExecutionOutcome, completed, failed,
  lease_lost, cancelled, suspended, start, finish, drop,
}

-- How an execution ends: with an outcome, or by the guard being dropped.
pub data End : Type 0 where
  finishes : ExecutionOutcome → End
  drops : End

-- One started execution that ends after some nanoseconds.
unfoldable pub execute : End → ℕ → QueueMetrics → QueueMetrics
unfolding start finish drop
execute (finishes outcome) elapsed m = finish (start 0) outcome elapsed m
execute drops elapsed m = drop (start 0) elapsed m

unfoldable pub execute_all : List (End × ℕ) → QueueMetrics → QueueMetrics
execute_all [] m = m
execute_all ((e, elapsed) ∷ es) m = execute_all es (execute e elapsed m)

abbrev is_end : End → End → Bool
is_end drops drops = true
is_end (finishes completed) (finishes completed) = true
is_end (finishes failed) (finishes failed) = true
is_end (finishes lease_lost) (finishes lease_lost) = true
is_end (finishes cancelled) (finishes cancelled) = true
is_end (finishes suspended) (finishes suspended) = true
is_end _ _ = false

-- How many of the executions end in a given way.
abbrev pub count_end : End → List (End × ℕ) → ℕ
count_end e [] = 0
count_end e ((d, _) ∷ es) = (if is_end e d then 1 else 0) + count_end e es

-- The counters differ from those of `m` by these executions.
pub record Counted (m : QueueMetrics) (es : List (End × ℕ)) (n : QueueMetrics) : Type 0 where
  pub executions : n.executions ≡ m.executions + length es
  pub completions :
      n.completed_executions ≡ m.completed_executions + count_end (finishes completed) es
  pub failures : n.failed_executions ≡ m.failed_executions + count_end (finishes failed) es
  pub losses :
      n.lease_lost_executions ≡ m.lease_lost_executions + count_end (finishes lease_lost) es
  pub cancellations :
      n.cancelled_executions ≡ m.cancelled_executions + count_end (finishes cancelled) es
  pub suspensions :
      n.suspended_executions ≡ m.suspended_executions + count_end (finishes suspended) es
  pub unhandled : n.unhandled_executions ≡ m.unhandled_executions + count_end drops es
  pub claims : n.claimed_runs ≡ m.claimed_runs
  pub claim_errors : n.claim_errors ≡ m.claim_errors

-- Every counter of executions is below the bound.
pub record IsBelow (bound : ℕ) (m : QueueMetrics) : Type 0 where
  pub executions : m.executions ≤ bound
  pub completions : m.completed_executions ≤ bound
  pub failures : m.failed_executions ≤ bound
  pub losses : m.lease_lost_executions ≤ bound
  pub cancellations : m.cancelled_executions ≤ bound
  pub suspensions : m.suspended_executions ≤ bound
  pub unhandled : m.unhandled_executions ≤ bound

execute-Counted :
    (m : QueueMetrics) (e : End) (elapsed : ℕ) (bound : ℕ)
    → IsBelow bound m
    → suc bound ≤ u64_max
    → Counted m ((e, elapsed) ∷ []) (execute e elapsed m)
unfolding execute
execute-Counted m drops elapsed bound b h = ground arith
execute-Counted m (finishes completed) elapsed bound b h = ground arith
execute-Counted m (finishes failed) elapsed bound b h = ground arith
execute-Counted m (finishes lease_lost) elapsed bound b h = ground arith
execute-Counted m (finishes cancelled) elapsed bound b h = ground arith
execute-Counted m (finishes suspended) elapsed bound b h = ground arith

one_end : (d e : End) (elapsed : ℕ) → count_end d ((e, elapsed) ∷ []) ≤ 1
one_end d e elapsed = ground arith

execute-IsBelow :
    (m : QueueMetrics) (e : End) (elapsed : ℕ) (bound : ℕ)
    → IsBelow bound m
    → suc bound ≤ u64_max
    → IsBelow (suc bound) (execute e elapsed m)
execute-IsBelow m e elapsed bound b h = omega (
  arith,
  execute-Counted m e elapsed bound b h,
  one_end (finishes completed) e elapsed,
  one_end (finishes failed) e elapsed,
  one_end (finishes lease_lost) e elapsed,
  one_end (finishes cancelled) e elapsed,
  one_end (finishes suspended) e elapsed,
  one_end drops e elapsed,
)

execute_all-Counted_from :
    (m : QueueMetrics) (es : List (End × ℕ)) (bound : ℕ)
    → IsBelow bound m
    → bound + length es ≤ u64_max
    → Counted m es (execute_all es m)
unfolding execute_all
execute_all-Counted_from m [] bound b h = omega arith
execute_all-Counted_from m ((e, elapsed) ∷ es) bound b h =
    let first = execute-Counted m e elapsed bound b (omega arith) in
    let rest =
      execute_all-Counted_from (execute e elapsed m) es (suc bound)
        (execute-IsBelow m e elapsed bound b (omega arith)) (omega arith) in
    omega (arith, first, rest)

-- After any history of fewer than 2^64 executions on a new queue handle, `executions` is their
-- number, each outcome's counter is the number of executions that finished with it, `unhandled` is
-- the number of guards dropped without an outcome, and the claim counters are untouched.
pub execute_all-Counted :
    (es : List (End × ℕ)) → length es ≤ u64_max → Counted new es (execute_all es new)
unfolding new
execute_all-Counted es h = execute_all-Counted_from new es 0 (omega arith) (omega arith)

-- What a worker records on a handle's counters.
pub data Event : Type 0 where
  ends : End → ℕ → Event
  claims : ℕ → Event
  claim_fails : Event

unfoldable pub observe : Event → QueueMetrics → QueueMetrics
unfolding execute record_claimed record_claim_error
observe (ends e elapsed) m = execute e elapsed m
observe (claims count) m = record_claimed count m
observe claim_fails m = record_claim_error m

unfoldable pub observe_all : List Event → QueueMetrics → QueueMetrics
observe_all [] m = m
observe_all (e ∷ es) m = observe_all es (observe e m)

-- Each counter of `n` is at least that of `m`.
pub record Grows (m n : QueueMetrics) : Type 0 where
  pub claimed_runs : m.claimed_runs ≤ n.claimed_runs
  pub claim_errors : m.claim_errors ≤ n.claim_errors
  pub executions : m.executions ≤ n.executions
  pub completions : m.completed_executions ≤ n.completed_executions
  pub failures : m.failed_executions ≤ n.failed_executions
  pub losses : m.lease_lost_executions ≤ n.lease_lost_executions
  pub cancellations : m.cancelled_executions ≤ n.cancelled_executions
  pub suspensions : m.suspended_executions ≤ n.suspended_executions
  pub unhandled : m.unhandled_executions ≤ n.unhandled_executions
  pub duration : m.execution_duration_nanoseconds ≤ n.execution_duration_nanoseconds

-- Each counter fits a u64.
pub record IsU64 (m : QueueMetrics) : Type 0 where
  pub claimed_runs : m.claimed_runs ≤ u64_max
  pub claim_errors : m.claim_errors ≤ u64_max
  pub executions : m.executions ≤ u64_max
  pub completions : m.completed_executions ≤ u64_max
  pub failures : m.failed_executions ≤ u64_max
  pub losses : m.lease_lost_executions ≤ u64_max
  pub cancellations : m.cancelled_executions ≤ u64_max
  pub suspensions : m.suspended_executions ≤ u64_max
  pub unhandled : m.unhandled_executions ≤ u64_max
  pub duration : m.execution_duration_nanoseconds ≤ u64_max

observe-Grows :
    (m : QueueMetrics) (e : Event) → IsU64 m → Grows m (observe e m) × IsU64 (observe e m)
unfolding observe
observe-Grows m (claims count) v = (ground arith, ground arith)
observe-Grows m claim_fails v = (ground arith, ground arith)
observe-Grows m (ends drops elapsed) v = (ground arith, ground arith)
observe-Grows m (ends (finishes completed) elapsed) v = (ground arith, ground arith)
observe-Grows m (ends (finishes failed) elapsed) v = (ground arith, ground arith)
observe-Grows m (ends (finishes lease_lost) elapsed) v = (ground arith, ground arith)
observe-Grows m (ends (finishes cancelled) elapsed) v = (ground arith, ground arith)
observe-Grows m (ends (finishes suspended) elapsed) v = (ground arith, ground arith)

-- Whatever is recorded on counters that fit 64 bits, they still fit and none has fallen: at the
-- limit they stay instead of wrapping.
pub observe_all-Grows :
    (m : QueueMetrics) (es : List Event)
    → IsU64 m
    → Grows m (observe_all es m) × IsU64 (observe_all es m)
unfolding observe_all
observe_all-Grows m [] v = (omega arith, v)
observe_all-Grows m (e ∷ es) v =
    let first = observe-Grows m e v in
    let rest = observe_all-Grows (observe e m) es first.1 in
    (omega (arith, first.0, rest.0), rest.1)
