-- ===== src/Sql/Claims.antt =====
-- sql/steda.sql, claim_tasks. SKIP LOCKED makes the rows
-- that its SELECT visits depend on other sessions, so a scan takes the rows in the order in which the
-- server visits those that are not locked, and its LIMIT as a budget.
pub mod Batch
use steda.Prelude.{◌||◌, ◌*◌, ◌+◌, is_empty}
use steda.Text.{trim}
use steda.Sql.Supervision.{is_running, has_lease, reap_expired_run}
use steda.Sql.Attempts.{exception, Raised, cancel_task, Server}
use steda.Error.{Result, ok, fail_if, ◌>>=◌}
use steda.Sql.{is_active, tick}
use steda.Prelude.{
  ℕ, zero, suc, ◌&&◌, max, Bool, true, false, not, Option, none, some, List, [], ◌∷◌, ◌==◌, leb,
  if◌then◌else◌,
}
use steda.Text.{Str}
use steda.Json.{Json}
use steda.Types.{TaskState}
use steda.Sql.{TaskRow, RunRow, Tables, set_run, set_task, is_due, coalesce}
use steda.Db.Claims.{supports}

-- What a claim returns of a row.
pub record Claimed : Type 0 where
  pub run_id : ℕ
  pub task_id : ℕ
  pub attempt : ℕ
  pub task_name : Str
  pub params : Json
  pub headers : Option Json

abbrev pub is_waiting : TaskState → Bool
is_waiting TaskState.pending = true
is_waiting TaskState.sleeping = true
is_waiting _ = false

-- The WHERE of candidate_runs, on a run and its task.
unfoldable pub is_claimable : List Str → ℕ → ℕ → RunRow → TaskRow → Bool
is_claimable names at r run task =
    is_waiting run.state
    && is_waiting task.state
    && (task.last_attempt_run == r)
    && leb run.available_at at
    && supports names task.name
    && not (is_due task at)

abbrev pub claimed_run : Str → ℕ → ℕ → RunRow → RunRow
claimed_run worker_id at expires run = record run {
  state = TaskState.running;
  claimed_by = some worker_id;
  claim_expires_at = some expires;
  started_at = coalesce run.started_at at;
  available_at = at;
}

abbrev pub claimed_task : ℕ → ℕ → RunRow → TaskRow → TaskRow
claimed_task r at run task = record task {
  state = TaskState.running;
  attempts = max task.attempts run.attempt;
  first_started_at = coalesce task.first_started_at at;
  last_attempt_run = r;
}

abbrev pub claimed_row : ℕ → RunRow → TaskRow → Claimed
claimed_row r run task = record {
  run_id = r;
  task_id = run.task_id;
  attempt = run.attempt;
  task_name = task.name;
  params = task.params;
  headers = task.headers;
}

-- One row of a scan: what it gives if it is claimable, and the tables after it.
abbrev pub claim_found :
    Str → List Str → ℕ → ℕ → ℕ → RunRow → Option TaskRow → Tables → Option Claimed × Tables
claim_found worker_id names at expires r run none s = (none, s)
claim_found worker_id names at expires r run (some task) s =
    if is_claimable names at r run task
    then (
      some (claimed_row r run task),
      set_task run.task_id (claimed_task r at run task)
          (set_run r (claimed_run worker_id at expires run) s),
    )
    else (none, s)

abbrev pub claim_row : Str → List Str → ℕ → ℕ → ℕ → Option RunRow → Tables → Option Claimed × Tables
claim_row worker_id names at expires r none s = (none, s)
claim_row worker_id names at expires r (some run) s =
    claim_found worker_id names at expires r run (s.tasks run.task_id) s

-- The claims of a scan.
unfoldable pub claim_each : Str → List Str → ℕ → ℕ → ℕ → List ℕ → Tables → List Claimed × Tables
claim_each worker_id names at expires zero rows s = ([], s)
claim_each worker_id names at expires (suc n) [] s = ([], s)
claim_each worker_id names at expires (suc n) (r ∷ rows) s =
    let (found, u) = claim_row worker_id names at expires r (s.runs r) s in
    elim found [
      | none ↦ claim_each worker_id names at expires (suc n) rows u
      | some claimed ↦
          let rest = claim_each worker_id names at expires n rows u in (claimed ∷ rest.0, rest.1)
    ]

-- The rows that the three SELECTs of a claim visit.
pub record Scans : Type 0 where
  pub expired_tasks : List ℕ
  pub expired_runs : List ℕ
  pub runnable : List ℕ

-- The WHERE of cancel_expired_tasks, on a task; its last run is active as the task is.
abbrev pub is_expired_task : ℕ → (ℕ → Option RunRow) → Option TaskRow → Bool
is_expired_task at runs none = false
is_expired_task at runs (some task) =
    is_active task.state && has_active (runs task.last_attempt_run) && is_due task at
  where
    has_active : Option RunRow → Bool
    has_active none = false
    has_active (some run) = is_active run.state

-- The WHERE of reap_expired_runs, on a run.
abbrev pub is_expired_run : ℕ → Option RunRow → Bool
is_expired_run at none = false
is_expired_run at (some run) = is_running run.state && not (has_lease run.claim_expires_at at)

-- A capability without a visible character.
abbrev pub has_blank : List Str → Bool
has_blank [] = false
has_blank (name ∷ names) = is_empty (trim name) || has_blank names

module _ (server : Server) where
  -- The loop of cancel_expired_tasks.
  unfoldable pub cancel_each : ℕ → ℕ → List ℕ → Tables → Result (Unit {0} × Tables) Raised
  cancel_each at zero rows s = ok (tt, s)
  cancel_each at (suc n) [] s = ok (tt, s)
  cancel_each at (suc n) (t ∷ rows) s = elim (is_expired_task at s.runs (s.tasks t)) [
    | true ↦ cancel_task server t s >>= λ p. cancel_each at n rows p.1
    | false ↦ cancel_each at (suc n) rows s
  ]

  -- The loop of reap_expired_runs.
  unfoldable pub reap_each : ℕ → ℕ → List ℕ → Tables → Result (Unit {0} × Tables) Raised
  reap_each at zero rows s = ok (tt, s)
  reap_each at (suc n) [] s = ok (tt, s)
  reap_each at (suc n) (r ∷ rows) s = elim (is_expired_run at (s.runs r)) [
    | true ↦ reap_expired_run server r s >>= λ p. reap_each at n rows p.1
    | false ↦ reap_each at (suc n) rows s
  ]

  -- The claim proper, on a fresh reading of the clock.
  abbrev pub claim_runs :
      Str → ℕ → ℕ → List Str → List ℕ → Tables → Result (List Claimed × Tables) Raised
  claim_runs worker_id lease_seconds quantity names rows s =
      let at = server.clock s.readings in
      ok (claim_each worker_id names at (at + lease_seconds * 1_000_000) quantity rows (tick s))

  unfoldable pub claim_tasks :
      Scans → Str → ℕ → ℕ → List Str → Tables → Result (List Claimed × Tables) Raised
  claim_tasks scans worker_id lease_seconds quantity names s =
      fail_if (is_empty (trim worker_id)) exception >>= λ a.
      fail_if (lease_seconds == 0) exception >>= λ b. fail_if (quantity == 0) exception >>= λ c.
      fail_if (is_empty names) exception >>= λ d. fail_if (has_blank names) exception >>= λ f.
      cancel_each (server.clock (s.readings + 1)) quantity scans.expired_tasks (tick (tick s))
      >>= λ p. reap_each (server.clock p.1.readings) quantity scans.expired_runs (tick p.1) >>= λ q.
          claim_runs worker_id lease_seconds quantity names scans.runnable q.1
