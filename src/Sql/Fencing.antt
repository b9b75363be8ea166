-- ===== src/Sql/Fencing.antt =====
-- A worker that does not hold a run changes nothing.
use steda.Prelude.{subst, ℕ, ◌<◌, ◌≡◌, refl, true, false, Option, none, some, arith}
use steda.Error.{Result, ok, err, >>=-eq-ok}
use steda.Types.{TaskState}
use steda.Sql.{TaskRow, RunRow, Tables}
use steda.Sql.Attempts.{
  Raised, Server, AttemptContext, lock_attempt_context, lock_running_attempt, running_check,
  complete_run, schedule_run, fail_run,
}
use steda.Sql.Checkpoints.{set_task_checkpoint_state}
use steda.Sql.Calls.{
  spawns, Call, completes, schedules, fails, cancels, retries, supervises, claims, commits, perform,
  settled,
}
use steda.Sql.Changes.Locks.{lock_attempt_context-IsLocked, running_check-IsRunning}

-- The run is the running last run of a running task, and its lease has not ended.
pub record IsHeld (server : Server) (r : ℕ) (s : Tables) : Type 0 where
  pub run : RunRow
  pub task : TaskRow
  pub expires : ℕ
  pub run_found : s.runs r ≡ some run
  pub task_found : s.tasks run.task_id ≡ some task
  pub run_running : run.state ≡ TaskState.running
  pub task_running : task.state ≡ TaskState.running
  pub last : task.last_attempt_run ≡ r
  pub lease : run.claim_expires_at ≡ some expires
  pub unexpired : server.clock s.readings < expires

-- The run in whose name a worker makes a call.
abbrev pub worker_run : Call → Option ℕ
worker_run (completes r result) = some r
worker_run (schedules r at) = some r
worker_run (fails r reason false) = some r
worker_run (commits t name state r) = some r
worker_run _ = none

lease_of :
    (r : ℕ) (c : AttemptContext)
    → running_check r false c ≡ ok tt
    → (expires : ℕ) × (c.run.claim_expires_at ≡ some expires) × (c.observed_at < expires)
unfolding running_check
lease_of r c e = go c.run.claim_expires_at refl
  where
    go :
        (o : Option ℕ)
        → c.run.claim_expires_at ≡ o
        → (expires : ℕ) × (c.run.claim_expires_at ≡ some expires) × (c.observed_at < expires)
    go none p = absurd (ground (arith, e, p))
    go (some expires) p = (expires, p, ground (arith, e, p))

settled_same :
    {A : Type 0} (s : Tables) (r : Result (A × Tables) Raised)
    → ((p : A × Tables) → r ≡ ok p → ⊥)
    → settled s r ≡ s
settled_same s (ok p) h = absurd (h p refl)
settled_same s (err e) h = refl

module _ (server : Server) where
  lock_running_attempt-IsHeld :
      (r : ℕ) (s : Tables) (p : AttemptContext × Tables)
      → lock_running_attempt server r false s ≡ ok p
      → IsHeld server r s
  unfolding lock_running_attempt
  lock_running_attempt-IsHeld r s p e =
      let ((c, u), locked, rest) = >>=-eq-ok (lock_attempt_context server r s) _ e in
      let (valid, checked, same) = >>=-eq-ok (running_check r false c) _ rest in
      let l = lock_attempt_context-IsLocked server r s c u locked in
      let n = running_check-IsRunning server r false c checked in
      let (expires, lease, unexpired) = lease_of r c checked in
      record {
        run = c.run;
        task = c.task;
        expires = expires;
        run_found = l.run_found;
        task_found = l.task_found;
        run_running = n.run;
        task_running = n.task;
        last = n.last;
        lease = lease;
        unexpired = observed r s c u expires locked unexpired;
      }
    where
      observed :
          (r : ℕ) (s : Tables) (c : AttemptContext) (u : Tables) (expires : ℕ)
          → lock_attempt_context server r s ≡ ok (c, u)
          → c.observed_at < expires
          → server.clock s.readings < expires
      observed r s c u expires locked h = unfold lock_attempt_context in ground (arith, locked, h)

  -- Completion, suspension, failure and the commit of a checkpoint are fenced: if a worker calls one in
  -- the name of a run that is not the running last run of a running task, or whose lease has ended,
  -- nothing changes.
  pub perform-fenced :
      (call : Call) (r : ℕ) (s : Tables)
      → worker_run call ≡ some r
      → ¬ IsHeld server r s
      → perform server call s ≡ s
  unfolding perform complete_run schedule_run fail_run set_task_checkpoint_state
  perform-fenced (completes q result) r s e lost =
      settled_same s (complete_run server q result s) λ p h.
        let (c, locked, rest) = >>=-eq-ok (lock_running_attempt server q false s) _ h in
        lost (subst (λ i. IsHeld server i s) (cc) (lock_running_attempt-IsHeld q s c locked))
  perform-fenced (schedules q at) r s e lost = settled_same s (schedule_run server q at s) λ p h.
      let (c, locked, rest) = >>=-eq-ok (lock_running_attempt server q false s) _ h in
      lost (subst (λ i. IsHeld server i s) (cc) (lock_running_attempt-IsHeld q s c locked))
  perform-fenced (fails q reason false) r s e lost =
      settled_same s (fail_run server q reason false s) λ p h.
        let (c, locked, rest) = >>=-eq-ok (lock_running_attempt server q false s) _ h in
        lost (subst (λ i. IsHeld server i s) (cc) (lock_running_attempt-IsHeld q s c locked))
  perform-fenced (commits t name state q) r s e lost =
      settled_same s (set_task_checkpoint_state server t name state q s) λ p h.
        let (c, locked, rest) = >>=-eq-ok (lock_running_attempt server q false s) _ h in
        lost (subst (λ i. IsHeld server i s) (cc) (lock_running_attempt-IsHeld q s c locked))
  perform-fenced (fails q reason true) r s e lost = cc
  perform-fenced (cancels t) r s e lost = cc
  perform-fenced (retries t) r s e lost = cc
  perform-fenced (supervises q seconds) r s e lost = cc
  perform-fenced (claims scans w lease quantity names) r s e lost = cc
  perform-fenced (spawns request) r s e lost = cc
