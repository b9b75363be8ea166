-- ===== src/Sql/Changes/Runs.antt =====
-- The transitions of a running attempt, as changes of the tables.
use steda.Prelude.{
  leb, ◌||◌, ℕ, ◌≤◌, ◌≡◌, refl, Bool, false, some, inl, inr, arith, Bool-cases, subst, sym, ap, ◌∙◌,
  max,
}
use steda.Types.{TaskState}
use steda.Json.{Json}
use steda.Error.{Result, ok, err, >>=-eq-ok}
use steda.Sql.{TaskRow, RunRow, Tables, tick, is_due, set_run, set_task}
use steda.Sql.Attempts.{
  slept_run, schedule_run, Raised, Server, AttemptContext, lock_running_attempt, cancel_task,
  complete_run, completed_run, instead,
}
use steda.Sql.Consistency.{HasLease, same_row}
use steda.Sql.Changes.{suspends, noted, noted, Change, advanced, Consistent, Moves, completes}
use steda.Sql.Changes.Locks.{lock_running_attempt-ok, cancel_task-Change}
use steda.Text.{codes, Str, Str}

pub instead-ok :
    {A : Type 0} (a x : A) (r : Result (Bool × Tables) Raised) (v : Tables)
    → instead a r ≡ ok (x, v)
    → (b : Bool) × (r ≡ ok (b, v))
instead-ok a x (err e) v h = cc
instead-ok a x (ok (b, w)) v h = (b, ground arith)

module _ (server : Server) where
  -- The last run of a task has the task's attempt.
  pub locked_attempt :
      (s : Tables) (r : ℕ) (run : RunRow) (task : TaskRow)
      → Consistent s
      → s.runs r ≡ some run
      → s.tasks run.task_id ≡ some task
      → task.last_attempt_run ≡ r
      → (run.attempt ≡ task.attempts) × (task.attempts ≤ task.max_attempts)
  locked_attempt s r run task c p q l =
      let before = c.latest run.task_id task q in
      let same = same_row (subst (λ k. s.runs k ≡ some before.run) l before.found) p in
      (sym (ap (λ (x : RunRow). x.attempt) same) ∙ before.attempt, before.budget)

  -- The lock of a run, and how its rows stand.
  pub record Locks (s : Tables) (r : ℕ) (c : AttemptContext) : Type 0 where
    pub run_found : s.runs r ≡ some c.run
    pub task_found : s.tasks c.run.task_id ≡ some c.task
    pub run_running : c.run.state ≡ TaskState.running
    pub task_running : c.task.state ≡ TaskState.running
    pub last : c.task.last_attempt_run ≡ r
    pub attempt : c.run.attempt ≡ c.task.attempts
    pub budget : c.task.attempts ≤ c.task.max_attempts
    pub leased : HasLease c.run

  pub lock_running_attempt-Locks :
      (r : ℕ) (expired : Bool) (s : Tables) (c : AttemptContext) (u : Tables)
      → Consistent s
      → lock_running_attempt server r expired s ≡ ok (c, u)
      → Locks s r c × (u ≡ tick s)
  lock_running_attempt-Locks r expired s c u k e =
      let (l, n) = lock_running_attempt-ok server r expired s c u e in
      let (attempt, budget) = locked_attempt s r c.run c.task k l.run_found l.task_found n.last in
      (
        record {
          run_found = l.run_found;
          task_found = l.task_found;
          run_running = n.run;
          task_running = n.task;
          last = n.last;
          attempt = attempt;
          budget = budget;
          leased = (k.owned r c.run l.run_found).leased;
        },
        l.after,
      )

  -- A cancellation of the task that is locked.
  pub cancel_locked-Change :
      (s : Tables) (r : ℕ) (c : AttemptContext) (b : Bool) (v : Tables)
      → Consistent s
      → Locks s r c
      → cancel_task server c.run.task_id (tick s) ≡ ok (b, v)
      → Change s v
  cancel_locked-Change s r c b v k l e =
      cancel_task-Change server s (tick s) v c.run.task_id c.run c.task b k l.task_found refl refl
        (λ q h. refl) (subst (λ i. s.runs i ≡ some c.run) (sym l.last) l.run_found) refl l.attempt
        l.leased (ground (arith, l.task_running)) e

  -- The last run and its task get new rows, in a state that is not running.
  pub replaced-Change :
      (s v : Tables) (r : ℕ) (c : AttemptContext) (next : RunRow) (after : TaskRow)
      → Locks s r c
      → next.task_id ≡ c.run.task_id
      → next.attempt ≡ c.run.attempt
      → next.state ≡ after.state
      → HasLease next
      → after.last_attempt_run ≡ r
      → c.task.attempts ≤ after.attempts
      → after.attempts ≤ max c.task.attempts c.run.attempt
      → after.max_attempts ≡ c.task.max_attempts
      → Moves TaskState.running after.state
      → v ≡ set_task c.run.task_id after (set_run r next (tick s))
      → Change s v
  replaced-Change s v r c next after l own attempt agrees leased last grows attempts budget m e =
      advanced r c.run next c.task after
        (record {
          run_found = l.run_found;
          task_found = l.task_found;
          last = l.last;
          own = own;
          attempt = attempt;
          agrees = agrees;
          leased = leased;
          still_last = last;
          grows = grows;
          attempts = attempts;
          budget = budget;
        })
        (subst (λ (a : TaskState). Moves a after.state) (sym l.task_running) m)
        (ap (λ (x : Tables). x.tasks) e) (ap (λ (x : Tables). x.runs) e)
        (ap (λ (x : Tables). x.checkpoints) e)

  pub complete_run-Change :
      (r : ℕ) (result : Json) (s v : Tables) (b : Bool)
      → Consistent s
      → complete_run server r result s ≡ ok (b, v)
      → Change s v
  unfolding complete_run
  complete_run-Change r result s v b k e =
      let ((c, u), locked, rest) = >>=-eq-ok (lock_running_attempt server r false s) _ e in
      let (l, ticked) = lock_running_attempt-Locks r false s c u k locked in
      elim (Bool-cases (is_due c.task c.observed_at)) [
        | inl due ↦
            let (d, cancelled) =
              instead-ok false b (cancel_task server c.run.task_id u) v
                (ground (arith, rest, due)) in
            cancel_locked-Change s r c d v k l (
              subst (λ (x : Tables). cancel_task server c.run.task_id x ≡ ok (d, v)) ticked
                cancelled)
        | inr due ↦
            replaced-Change s v r c (completed_run server c.observed_at result c.run)
              (record c.task { state = TaskState.completed; last_attempt_run = r }) l refl refl refl
              tt refl (omega arith) (omega arith) refl completes (ground (arith, rest, due, ticked))
      ]

  pub schedule_run-Change :
      (r wake_at : ℕ) (s v : Tables) (x : Str)
      → Consistent s
      → schedule_run server r wake_at s ≡ ok (x, v)
      → Change s v
  unfolding schedule_run
  schedule_run-Change r wake_at s v x k e =
      let ((c, u), locked, rest) = >>=-eq-ok (lock_running_attempt server r false s) _ e in
      let (l, ticked) = lock_running_attempt-Locks r false s c u k locked in
      elim (Bool-cases (is_due c.task c.observed_at || is_due c.task wake_at)) [
        | inl due ↦
            let (d, cancelled) =
              instead-ok (codes "cancelled") x (cancel_task server c.run.task_id u) v
                (ground (arith, rest, due)) in
            cancel_locked-Change s r c d v k l (
              subst (λ (x : Tables). cancel_task server c.run.task_id x ≡ ok (d, v)) ticked
                cancelled)
        | inr due ↦ elim (Bool-cases (leb wake_at c.observed_at)) [
          | inl early ↦
              let same : v ≡ tick s = ground (arith, rest, due, early, ticked) in
              noted (ap (λ (x : Tables). x.tasks) same) (ap (λ (x : Tables). x.runs) same)
                (ap (λ (x : Tables). x.checkpoints) same)
          | inr early ↦
              replaced-Change s v r c (slept_run server wake_at c.run)
                (record c.task { state = TaskState.sleeping }) l refl refl refl tt l.last
                (omega arith) (omega arith) refl suspends (ground (arith, rest, due, early, ticked))
        ]
      ]
