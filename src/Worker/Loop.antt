-- ===== src/Worker/Loop.antt =====
-- src/worker.rs, run_worker_loop: a machine that takes one input at a time. An input is what the
-- loop's runtime finds next: an attempt that has ended, the shutdown, or none of them. The attempts
-- of the join set run when they end, with the turns of the input for their schedule.
pub mod Joins
pub mod Transitions
pub mod History
use steda.Prelude.{
  ℕ, zero, suc, ◌-◌, Bool, true, false, Option, none, some, List, [], ◌∷◌, ◌++◌, ◌==◌, ltb, length,
  is_empty, if◌then◌else◌,
}
use steda.Text.{Str}
use steda.Duration.{Duration}
use steda.Error.{Error, Result, ok, err, literal, format, Argument, map_err}
use steda.Types.{ClaimedTask}
use steda.Options.{i32_max}
use steda.World.{Database, Clock}
use steda.Db.{claim_tasks}
use steda.Metrics.{QueueMetrics, record_claimed, record_claim_error}
use steda.Metrics.Accounting.{End, drops, execute}
use steda.Executor.{Rendering, Turn, Attempt, execute_task}
use steda.Worker.{
  Worker, default_poll_interval, is_transient_worker_error, registered_task_names,
  worker_lease_seconds,
}

pub data Phase : Type 0 where
  joining waiting checking idling draining : Phase
  returned : Result (Unit {0}) Error → Phase

pub record WorkerLoop (S : Type 0) : Type 0 where
  pub phase : Phase
  pub executing : List ClaimedTask
  pub terminal_error : Option Error
  pub metrics : QueueMetrics
  pub store : S

pub data Input (S : Type 0) : Type 0 where
  -- The attempt at this position ends after some nanoseconds, under a schedule of turns.
  joins : (n : ℕ) (turns : List Turn) (elapsed : ℕ) → Input S
  -- The attempt at this position panics after it changed the outside state.
  aborts : (n : ℕ) (change : S → S) (elapsed : ℕ) (message : Str) → Input S
  -- No attempt has ended, or there is none.
  none_ready : Input S
  shuts_down : Input S
  -- The shutdown is not observable before a claim.
  proceeds : Input S
  sleeps : Input S

-- The attempt at a position, and the others.
unfoldable pub take_at {ℓ} : {A : Type ℓ} → ℕ → List A → Option (A × List A)
take_at n [] = none
take_at zero (x ∷ xs) = some (x, xs)
take_at (suc n) (x ∷ xs) = elim (take_at n xs) [ none ↦ none | some (y, ys) ↦ some (y, x ∷ ys) ]

-- The result of a spawned future, from that of `execute_task`.
unfoldable pub attempt_result : Result (Unit {0}) Error → Result (Unit {0}) Error
attempt_result (ok done) = ok done
attempt_result (err Error.suspended) = ok tt
attempt_result (err Error.cancelled) = ok tt
attempt_result (err Error.failed_run) = ok tt
attempt_result (err Error.lease_lost) = ok tt
attempt_result (err e) = if is_transient_worker_error e then ok tt else err e

-- `Result<Result<()>, JoinError>`, the join error by its rendering.
pub data Joined : Type 0 where
  ended : Result (Unit {0}) Error → Joined
  failed_join : Str → Joined

unfoldable pub terminal_join_error : Joined → Option Error
terminal_join_error (ended (ok done)) = none
terminal_join_error (ended (err e)) = some e
terminal_join_error (failed_join message) =
    some (Error.other (format "worker task join failed: {err}" (Argument.display message ∷ [])))

abbrev pub first_error : Option Error → Option Error → Option Error
first_error (some e) o = some e
first_error none o = o

-- The phases in which an attempt is joined.
abbrev pub is_joining : Phase → Bool
is_joining joining = true
is_joining waiting = true
is_joining draining = true
is_joining _ = false

-- What the loop returns once it is drained.
abbrev pub outcome : Option Error → Result (Unit {0}) Error
outcome none = ok tt
outcome (some e) = err e

module _ {S : Type 0} where
  abbrev pub stop : Error → WorkerLoop S → WorkerLoop S
  stop e w = record w { phase = draining; terminal_error = some e }

  -- What the loop does with a joined attempt, in the phases that join one.
  abbrev pub after_join : Phase → Option Error → WorkerLoop S → WorkerLoop S
  after_join draining o w = record w { terminal_error = first_error w.terminal_error o }
  after_join phase (some e) w = stop e w
  after_join phase none w = record w { phase = joining }

  -- The attempt that is joined leaves the set; its guard has counted its end.
  abbrev pub leave : List ClaimedTask → End → ℕ → S → WorkerLoop S → WorkerLoop S
  leave rest end elapsed t w = record w {
    executing = rest;
    metrics = execute end elapsed w.metrics;
    store = t;
  }

module _ {S : Type 0} (db : Database S) (clock : Clock S) (rendering : Rendering)
    (worker : Worker S) (worker_id : Str) (lease_seconds : ℕ) where
  abbrev pub available : WorkerLoop S → ℕ
  available w = worker.runtime.concurrency - length w.executing

  abbrev pub after_attempt :
      List ClaimedTask → ℕ → WorkerLoop S → Option (Attempt S) → Option (WorkerLoop S)
  after_attempt rest elapsed w none = none
  after_attempt rest elapsed w (some (r, end, t)) = some (
      after_join w.phase (terminal_join_error (ended (attempt_result r)))
        (leave rest end elapsed t w))

  unfoldable pub join_attempt :
      List Turn → ℕ → WorkerLoop S → Option (ClaimedTask × List ClaimedTask) → Option (WorkerLoop S)
  join_attempt turns elapsed w none = none
  join_attempt turns elapsed w (some (task, rest)) = after_attempt rest elapsed w (
      execute_task db rendering worker.queue.execution worker.queue.name worker.registry task
        lease_seconds turns w.store)

  unfoldable pub abort_attempt :
      (S → S)
      → ℕ
      → Str
      → WorkerLoop S
      → Option (ClaimedTask × List ClaimedTask)
      → Option (WorkerLoop S)
  abort_attempt change elapsed message w none = none
  abort_attempt change elapsed message w (some (task, rest)) = some (
      after_join w.phase (terminal_join_error (failed_join message))
        (leave rest drops elapsed (change w.store) w))

  -- What follows a claim: its tasks are spawned, or the loop idles, or it stops.
  abbrev pub after_claim : WorkerLoop S → Result (List ClaimedTask) Error × S → WorkerLoop S
  after_claim w (ok tasks, t) = record w {
    phase = if is_empty tasks then idling else joining;
    executing = w.executing ++ tasks;
    metrics = record_claimed (length tasks) w.metrics;
    store = t;
  }
  after_claim w (err e, t) =
      let counted : WorkerLoop S = record w { metrics = record_claim_error w.metrics; store = t } in
      if is_transient_worker_error e then record counted { phase = idling } else stop e counted

  abbrev pub too_wide : Error
  too_wide = Error.invalid_options (literal "worker concurrency exceeds PostgreSQL integer range")

  -- A capacity that does not fit makes the loop return at once, which drops the join set: no worker
  -- that the builder makes has such a capacity.
  unfoldable pub claim : WorkerLoop S → WorkerLoop S
  claim w =
      if ltb i32_max (available w)
      then record w { phase = returned (err too_wide); executing = [] }
      else after_claim w (
          claim_tasks db worker.queue.name worker_id lease_seconds (available w)
            (registered_task_names worker.registry) w.store)

  abbrev pub after_none : Phase → WorkerLoop S → Option (WorkerLoop S)
  after_none joining w = some (record w { phase = if available w == 0 then waiting else checking })
  after_none waiting w = if is_empty w.executing then some (record w { phase = joining }) else none
  after_none draining w =
      if is_empty w.executing
      then some (record w { phase = returned (outcome w.terminal_error) })
      else none
  after_none _ w = none

  abbrev pub after_shutdown : Phase → WorkerLoop S → Option (WorkerLoop S)
  after_shutdown waiting w = some (record w { phase = draining })
  after_shutdown checking w = some (record w { phase = draining })
  after_shutdown idling w = some (record w { phase = draining })
  after_shutdown _ w = none

  abbrev pub after_check : Phase → WorkerLoop S → Option (WorkerLoop S)
  after_check checking w = some (claim w)
  after_check _ w = none

  abbrev pub after_idling : Phase → WorkerLoop S → Option (WorkerLoop S)
  after_idling idling w =
      some (record w { phase = joining; store = clock.sleep default_poll_interval w.store })
  after_idling _ w = none

  -- `none` is an input that the loop does not take in its phase.
  unfoldable pub loop_step : Input S → WorkerLoop S → Option (WorkerLoop S)
  unfolding join_attempt abort_attempt claim
  loop_step (joins n turns elapsed) w =
      if is_joining w.phase then join_attempt turns elapsed w (take_at n w.executing) else none
  loop_step (aborts n change elapsed message) w =
      if is_joining w.phase
      then abort_attempt change elapsed message w (take_at n w.executing)
      else none
  loop_step none_ready w = after_none w.phase w
  loop_step shuts_down w = after_shutdown w.phase w
  loop_step proceeds w = after_check w.phase w
  loop_step sleeps w = after_idling w.phase w

  unfoldable pub run_loop : List (Input S) → WorkerLoop S → Option (WorkerLoop S)
  unfolding loop_step
  run_loop [] w = some w
  run_loop (i ∷ inputs) w = elim (loop_step i w) [ none ↦ none | some v ↦ run_loop inputs v ]

-- The loop as it starts, on counters that other workers of the handle may share.
abbrev pub fresh_loop : {S : Type 0} → QueueMetrics → S → WorkerLoop S
fresh_loop metrics s = record {
  phase = joining;
  executing = [];
  terminal_error = none;
  metrics = metrics;
  store = s;
}

-- `Worker::run_until` under a list of inputs: the lease is converted first.
unfoldable pub run_until :
    {S : Type 0}
    → Database S
    → Clock S
    → Rendering
    → Worker S
    → Str
    → List (Input S)
    → QueueMetrics
    → S
    → Result (Option (WorkerLoop S)) Error
run_until db clock rendering worker worker_id inputs metrics s =
    elim (worker_lease_seconds worker.runtime.lease_duration) [
      | ok lease_seconds ↦
          ok (
            run_loop db clock rendering worker worker_id lease_seconds inputs
              (fresh_loop metrics s))
      | err e ↦ err e
    ]
