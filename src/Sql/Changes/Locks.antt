-- ===== src/Sql/Changes/Locks.antt =====
-- What a lock on a running attempt has found, and the changes that follow a cancellation.
use steda.Prelude.{ℕ, ◌≡◌, ◌≢◌, refl, Bool, true, Option, none, some, arith, subst, ap, ◌∙◌}
use steda.Types.{TaskState}
use steda.Error.{Result, ok, err}
use steda.Sql.{TaskRow, RunRow, Tables, put, tick, is_active, coalesce}
use steda.Sql.Attempts.{
  Raised, Server, AttemptContext, lock_attempt_context, lock_running_attempt, running_check,
  cancel_task, cancelled_tables,
}
use steda.Sql.Consistency.{HasLease}
use steda.Sql.Changes.{
  Change, withdrawn, Consistent, Moves, cancels_pending, cancels_running, cancels_sleeping,
}

module _ (server : Server) where
  -- The rows that a lock returns.
  pub record IsLocked (r : ℕ) (s : Tables) (c : AttemptContext) (u : Tables) : Type 0 where
    pub run_found : s.runs r ≡ some c.run
    pub task_found : s.tasks c.run.task_id ≡ some c.task
    pub after : u ≡ tick s

  pub record IsRunning (r : ℕ) (c : AttemptContext) : Type 0 where
    pub run : c.run.state ≡ TaskState.running
    pub task : c.task.state ≡ TaskState.running
    pub last : c.task.last_attempt_run ≡ r

  pub lock_attempt_context-IsLocked :
      (r : ℕ) (s : Tables) (c : AttemptContext) (u : Tables)
      → lock_attempt_context server r s ≡ ok (c, u)
      → IsLocked r s c u
  unfolding lock_attempt_context
  lock_attempt_context-IsLocked r s c u e = go (s.runs r) refl
    where
      with_task :
          (run : RunRow)
          → s.runs r ≡ some run
          → (o : Option TaskRow) → s.tasks run.task_id ≡ o
          → IsLocked r s c u
      with_task run p none q = absurd (ground arith)
      with_task run p (some task) q =
          let same : run ≡ c.run = ground arith in
          let same_task : task ≡ c.task = ground arith in
          record {
            run_found = p ∙ ap some same;
            task_found =
                subst (λ (x : RunRow). s.tasks x.task_id ≡ some task) same q ∙ ap some same_task;
            after = ground arith;
          }

      go : (o : Option RunRow) → s.runs r ≡ o → IsLocked r s c u
      go none p = absurd (ground arith)
      go (some run) p = with_task run p (s.tasks run.task_id) refl

  pub running_check-IsRunning :
      (r : ℕ) (expired : Bool) (c : AttemptContext)
      → running_check r expired c ≡ ok tt
      → IsRunning r c
  unfolding running_check
  running_check-IsRunning r expired c e = record {
    run = ground arith;
    task = ground arith;
    last = ground arith;
  }

  pub lock_running_attempt-ok :
      (r : ℕ) (expired : Bool) (s : Tables) (c : AttemptContext) (u : Tables)
      → lock_running_attempt server r expired s ≡ ok (c, u)
      → IsLocked r s c u × IsRunning r c
  unfolding lock_running_attempt
  lock_running_attempt-ok r expired s c u e = go (lock_attempt_context server r s) refl
    where
      go :
          (o : Result (AttemptContext × Tables) Raised)
          → lock_attempt_context server r s ≡ o
          → IsLocked r s c u × IsRunning r c
      go (err x) p = absurd (ground arith)
      go (ok (d, v)) p = checked (running_check r expired d) refl
        where
          checked :
              (k : Result (Unit {0}) Raised)
              → running_check r expired d ≡ k
              → IsLocked r s c u × IsRunning r c
          checked (err x) q = absurd (ground arith)
          checked (ok done) q =
              let same : d ≡ c = ground arith in
              let same_tables : v ≡ u = ground arith in
              (
                lock_attempt_context-IsLocked r s c u (ground arith),
                subst (λ (x : AttemptContext). IsRunning r x) same
                    (running_check-IsRunning r expired d q),
              )

active-Moves : (a : TaskState) → is_active a ≡ true → Moves a TaskState.cancelled
active-Moves TaskState.pending h = cancels_pending
active-Moves TaskState.running h = cancels_running
active-Moves TaskState.sleeping h = cancels_sleeping
active-Moves TaskState.completed h = cc
active-Moves TaskState.failed h = cc
active-Moves TaskState.cancelled h = cc

-- A cancellation, on tables in which the last run of the task may have ended already.
pub cancel_task-Change :
    (server : Server) (s m v : Tables) (t : ℕ) (next : RunRow) (task : TaskRow) (b : Bool)
    → Consistent s
    → s.tasks t ≡ some task
    → m.tasks ≡ s.tasks
    → m.checkpoints ≡ s.checkpoints
    → ((q : ℕ) → q ≢ task.last_attempt_run → m.runs q ≡ s.runs q)
    → m.runs task.last_attempt_run ≡ some next
    → next.task_id ≡ t
    → next.attempt ≡ task.attempts
    → HasLease next
    → is_active task.state ≡ true
    → cancel_task server t m ≡ ok (b, v)
    → Change s v
unfolding cancel_task
cancel_task-Change server s m v t next task b c found same kept others ended own attempt leased
      active e =
    let here : m.tasks t ≡ some task = ap (λ (f : ℕ → Option TaskRow). f t) same ∙ found in
    let after : v ≡ cancelled_tables server t task (server.clock m.readings) (tick m) =
      ground arith in
    withdrawn m.runs t next task
      (record task {
        state = TaskState.cancelled;
        cancelled_at = coalesce task.cancelled_at (server.clock m.readings);
      })
      (record {
        task_found = found;
        others = others;
        ended_found = ended;
        own = own;
        attempt = attempt;
        leased = leased;
        state = refl;
        last = refl;
        attempts = refl;
        budget = refl;
      })
      (active-Moves task.state active)
      (ap (λ (x : Tables). x.tasks) after
        ∙ ap
            (λ (f : ℕ → Option TaskRow).
              put t
                (record task {
                  state = TaskState.cancelled;
                  cancelled_at = coalesce task.cancelled_at (server.clock m.readings);
                })
                f)
            same)
      (ap (λ (x : Tables). x.runs) after) (ap (λ (x : Tables). x.checkpoints) after ∙ kept)
