-- ===== src/Examples/Tables.antt =====
-- The theorems on the tables of a queue, with one task and its first run.
use steda.Prelude.{
  ◌∙◌, ap, ℕ, ◌+◌, ◌≤◌, ◌≡◌, refl, true, false, Option, none, some, List, [], ◌∷◌, length, arith,
  All, inl, inr, sym, subst,
}
use steda.Text.{codes, str_eq, trim, is_whitespace}
use steda.Json.{Json}
use steda.Types.{RetryStrategy, TaskState}
use steda.Db.Claims.{supports}
use steda.Sql.{Request, TaskRow, RunRow, Tables, put, cancellation_due}
use steda.Sql.Attempts.{Server, new_run}
use steda.Sql.Claims.{Scans, Claimed, claim_tasks, claim_each, cancel_each, reap_each, is_claimable}
use steda.Sql.Claims.Batch.{IsClaimed, claim_tasks-IsBatch}
use steda.Sql.Calls.{
  cancels, retries, spawns, Call, claims, commits, completes, perform, perform_all,
}
use steda.Sql.Consistency.{HasLease, IsConsistent, IsOwned, IsRun, put-cases, put-here}
use steda.Sql.History.{perform_all-IsConsistent, perform_all-one_active}
use steda.Sql.History.Lives.{perform-Moves, perform_all-final}
use steda.Sql.Changes.{Moves}
use steda.Sql.History.Kept.{perform_all-keeps}
use steda.Sql.Fencing.{IsHeld, perform-fenced}

-- A reading of the clock takes a microsecond.
abbrev server : Server
server = record {
  clock = λ n. 1_000 + n;
  uuid = λ n. 100 + n;
  retry_delay = λ r n. 0;
  timestamp_json = λ n. Json.null;
  same_json = λ a b. true;
  same_strategy = λ a b. true;
}

abbrev pending_task : TaskRow
pending_task = record {
  name = codes "charge";
  params = Json.null;
  headers = none;
  retry_strategy = RetryStrategy.never;
  initial_max_attempts = 5;
  max_attempts = 5;
  cancellation = none;
  enqueue_at = 900;
  first_started_at = none;
  state = TaskState.pending;
  attempts = 1;
  last_attempt_run = 2;
  cancelled_at = none;
}

abbrev pending_run : RunRow
pending_run = new_run server 1 1 TaskState.pending 900

abbrev no_task : ℕ → Option TaskRow
no_task n = none

abbrev no_run : ℕ → Option RunRow
no_run n = none

-- The tables of a queue with one task, whose last run is its only one.
abbrev lone_tables : TaskRow → RunRow → Tables
lone_tables task run = record {
  tasks = put 1 task no_task;
  runs = put 2 run no_run;
  checkpoints = λ t n. none;
  keys = λ k. none;
  readings = 0;
  generated = 2;
}

lone_tables-IsConsistent :
    (task : TaskRow) (run : RunRow)
    → run.task_id ≡ 1
    → run.attempt ≡ task.attempts
    → task.last_attempt_run ≡ 2
    → run.state ≡ task.state
    → task.attempts ≤ task.max_attempts
    → HasLease run
    → IsConsistent (lone_tables task run).tasks (lone_tables task run).runs
lone_tables-IsConsistent task run own attempt last same budget leased = record {
  owned = owned;
  latest = latest;
}
  where
    owned :
        (r : ℕ) (row : RunRow)
        → (lone_tables task run).runs r ≡ some row
        → IsOwned (lone_tables task run).tasks (lone_tables task run).runs r row
    owned r row e = elim (put-cases 2 run no_run r row e) [
      | inr (there, old) ↦ cc
      | inl (here, eq) ↦
          subst
            (λ (x : RunRow). IsOwned (lone_tables task run).tasks (lone_tables task run).runs r x)
            (sym eq)
            (record {
              task = task;
              found = ap (put 1 task no_task) own ∙ put-here 1 task no_task;
              counted = omega (arith, attempt);
              last = λ h. last ∙ sym here;
              agrees = λ h. sym same;
              leased = leased;
            })
    ]

    latest :
        (t : ℕ) (row : TaskRow)
        → (lone_tables task run).tasks t ≡ some row
        → IsRun (lone_tables task run).tasks (lone_tables task run).runs t row
    latest t row e = elim (put-cases 1 task no_task t row e) [
      | inr (there, old) ↦ cc
      | inl (here, eq) ↦
          subst
            (λ (x : TaskRow). IsRun (lone_tables task run).tasks (lone_tables task run).runs t x)
            (sym eq)
            (record {
              run = run;
              found = ap (put 2 run no_run) last ∙ put-here 2 run no_run;
              own = own ∙ sym here;
              attempt = attempt;
              agrees = λ h. same;
              budget = budget;
            })
    ]

abbrev spawned : Tables
spawned = lone_tables pending_task pending_run

spawned-IsConsistent : IsConsistent spawned.tasks spawned.runs
spawned-IsConsistent =
    lone_tables-IsConsistent pending_task pending_run refl refl refl refl (omega arith) tt

abbrev scans : Scans
scans = record { expired_tasks = []; expired_runs = []; runnable = 2 ∷ [] }

abbrev claim_charge : Call
claim_charge = claims scans (codes "w") 30 1 (codes "charge" ∷ [])

-- The run is claimed, commits a checkpoint and completes.
abbrev life_of_charge : List Call
life_of_charge =
    claim_charge ∷ commits 1 (codes "charge") (Json.boolean true) 2 ∷ completes 2 Json.null ∷ []

-- A queue that has just been created.
abbrev empty_tables : Tables
empty_tables = record {
  tasks = no_task;
  runs = no_run;
  checkpoints = λ t n. none;
  keys = λ k. none;
  readings = 0;
  generated = 0;
}

empty_tables-IsConsistent : IsConsistent empty_tables.tasks empty_tables.runs
empty_tables-IsConsistent = record { owned = λ r run e. cc; latest = λ t task e. cc }

abbrev charge_request : Request
charge_request = record {
  name = codes "charge";
  params = Json.null;
  headers = none;
  retry_strategy = RetryStrategy.never;
  other_attempts = 4;
  cancellation = none;
  idempotency_key = some (codes "order 7");
}

-- The task is spawned twice with the same key, and its run is claimed.
abbrev spawns_and_claims : List Call
spawns_and_claims =
    spawns charge_request
    ∷ spawns charge_request
    ∷ claims (record scans { runnable = 101 ∷ [] }) (codes "w") 30 1 (codes "charge" ∷ [])
    ∷ []

perform_all-IsConsistent_example :
    IsConsistent
      (perform_all server spawns_and_claims empty_tables).tasks
      (perform_all server spawns_and_claims empty_tables).runs
perform_all-IsConsistent_example =
    perform_all-IsConsistent server spawns_and_claims empty_tables empty_tables-IsConsistent

perform-Moves_example :
    (last : TaskRow) × ((perform server (cancels 1) spawned).tasks 1 ≡ some last)
    × Moves TaskState.pending last.state
perform-Moves_example =
    perform-Moves server (cancels 1) spawned refl spawned-IsConsistent 1 pending_task
      (put-here 1 pending_task no_task)

-- The same task, once it has been cancelled.
abbrev cancelled_task : TaskRow
cancelled_task = record pending_task { state = TaskState.cancelled; cancelled_at = some 950 }

abbrev cancelled_run : RunRow
cancelled_run = record pending_run { state = TaskState.cancelled }

abbrev withdrawn_tables : Tables
withdrawn_tables = lone_tables cancelled_task cancelled_run

perform_all-final_example :
    (last : TaskRow) × ((perform_all server (retries 1 ∷ life_of_charge) withdrawn_tables).tasks 1
      ≡ some last)
    × (last.state ≡ TaskState.cancelled)
perform_all-final_example =
    perform_all-final server (retries 1 ∷ life_of_charge) withdrawn_tables
      (lone_tables-IsConsistent cancelled_task cancelled_run refl refl refl refl (omega arith) tt) 1
      cancelled_task (put-here 1 cancelled_task no_task) refl

-- The tables with a checkpoint, as a first attempt leaves them.
abbrev with_checkpoint : Tables
with_checkpoint = record spawned { checkpoints = λ t n. some (Json.boolean false) }

perform_all-keeps_example :
    (perform_all server life_of_charge with_checkpoint).checkpoints 1 (codes "charge")
    ≡ some (Json.boolean false)
perform_all-keeps_example =
    perform_all-keeps server life_of_charge with_checkpoint spawned-IsConsistent 1 (codes "charge")
      (Json.boolean false) refl

abbrev claimed_charge : RunRow
claimed_charge = record pending_run {
  state = TaskState.running;
  claimed_by = some (codes "w");
  claim_expires_at = some 30_001_003;
  started_at = some 1_003;
  available_at = 1_003;
}

charge_claimed : (perform_all server (claim_charge ∷ []) spawned).runs 2 ≡ some claimed_charge
unfolding perform_all perform claim_tasks claim_each cancel_each reap_each is_claimable put supports
    str_eq trim is_whitespace cancellation_due
charge_claimed = refl

perform_all-one_active_example : ◌≡◌ {A = ℕ} 2 2
perform_all-one_active_example =
    perform_all-one_active server (claim_charge ∷ []) spawned spawned-IsConsistent 2 2
      claimed_charge claimed_charge charge_claimed charge_claimed refl refl refl

charge_unclaimed : ¬ IsHeld server 2 spawned
charge_unclaimed h = elim (put-cases 2 pending_run no_run 2 h.run h.run_found) [
  | inl (here, same) ↦ ground (arith, same, h.run_running)
  | inr (there, old) ↦ there refl
]

perform-fenced_example : perform server (completes 2 Json.null) spawned ≡ spawned
perform-fenced_example =
    perform-fenced server (completes 2 Json.null) 2 spawned refl charge_unclaimed

abbrev claimed_rows : List Claimed
claimed_rows =
    record {
      run_id = 2;
      task_id = 1;
      attempt = 1;
      task_name = codes "charge";
      params = Json.null;
      headers = none;
    }
    ∷ []

claim_tasks-IsBatch_example :
    (length claimed_rows ≤ 1)
    × ((expires : ℕ) × All
          (IsClaimed
            (codes "w")
            (codes "charge" ∷ [])
            expires
            (perform server claim_charge spawned))
          claimed_rows)
unfolding perform claim_tasks claim_each cancel_each reap_each is_claimable put supports str_eq trim
    is_whitespace cancellation_due
claim_tasks-IsBatch_example =
    claim_tasks-IsBatch server scans (codes "w") 30 1 (codes "charge" ∷ []) spawned
      (perform server claim_charge spawned) claimed_rows refl
