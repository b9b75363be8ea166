-- ===== src/Sql/History.antt =====
-- What holds of the tables after any calls.
pub mod Lives
pub mod Kept
use steda.Prelude.{some, refl, ℕ, ◌≡◌, Bool, true, false, List, [], ◌∷◌, arith, sym, subst, ap, ◌∙◌}
use steda.Error.{Result, ok, err}
use steda.Sql.{RunRow, TaskRow, Tables, is_active}
use steda.Sql.Attempts.{
  Raised, Server, complete_run, schedule_run, fail_run, cancel_task, retry_task,
}
use steda.Sql.Checkpoints.{set_task_checkpoint_state}
use steda.Sql.Supervision.{supervise_run}
use steda.Sql.Claims.{claim_tasks}
use steda.Sql.Spawns.{spawn_task}
use steda.Sql.Changes.Spawns.{spawn_task-Change}
use steda.Sql.Calls.{
  spawns, Call, completes, schedules, fails, cancels, retries, supervises, claims, commits, perform,
  perform_all, settled,
}
use steda.Sql.Consistency.{IsConsistent, same_row}
use steda.Sql.Changes.{Consistent, Change, noted}
use steda.Sql.Changes.Runs.{complete_run-Change, schedule_run-Change}
use steda.Sql.Changes.Failures.{fail_run-Change}
use steda.Sql.Changes.Tasks.{cancel_any-Change, retry_task-Change}
use steda.Sql.Changes.Supervision.{supervise_run-Change}
use steda.Sql.Changes.Batches.{
  Chain, done, one, join, Chain-Consistent, set_task_checkpoint_state-Change, claim_tasks-Chain,
}

settled-Chain :
    {A : Type 0} (s : Tables) (r : Result (A × Tables) Raised)
    → ((a : A) (v : Tables) → r ≡ ok (a, v) → Chain s v)
    → Chain s (settled s r)
settled-Chain s (ok (a, v)) h = h a v refl
settled-Chain s (err e) h = done

settled-Change :
    {A : Type 0} (s : Tables) (r : Result (A × Tables) Raised)
    → ((a : A) (v : Tables) → r ≡ ok (a, v) → Change s v)
    → Change s (settled s r)
settled-Change s (ok (a, v)) h = h a v refl
settled-Change s (err e) h = noted refl refl refl

-- A claim works on a batch of tasks, every other call on one.
abbrev pub is_claim : Call → Bool
is_claim (claims scans w lease quantity names) = true
is_claim _ = false

module _ (server : Server) where
  pub perform-Change :
      (call : Call) (s : Tables)
      → is_claim call ≡ false
      → Consistent s
      → Change s (perform server call s)
  unfolding perform
  perform-Change (spawns request) s single k =
      settled-Change s (spawn_task server request s)
        λ x v e. spawn_task-Change server request s v x e
  perform-Change (completes r result) s single k =
      settled-Change s (complete_run server r result s)
        λ b v e. complete_run-Change server r result s v b k e
  perform-Change (schedules r at) s single k =
      settled-Change s (schedule_run server r at s)
        λ x v e. schedule_run-Change server r at s v x k e
  perform-Change (fails r reason expired) s single k =
      settled-Change s (fail_run server r reason expired s)
        λ x v e. fail_run-Change server r reason expired s v k e
  perform-Change (cancels t) s single k =
      settled-Change s (cancel_task server t s) λ b v e. cancel_any-Change server t s v b k e
  perform-Change (retries t) s single k =
      settled-Change s (retry_task server t s) λ n v e. retry_task-Change server t n s v k e
  perform-Change (supervises r seconds) s single k =
      settled-Change s (supervise_run server r seconds s)
        λ x v e. supervise_run-Change server r seconds s v x k e
  perform-Change (claims scans w lease quantity names) s single k = cc
  perform-Change (commits t name state r) s single k =
      settled-Change s (set_task_checkpoint_state server t name state r s)
        λ x v e. set_task_checkpoint_state-Change server t name state r s v x k e

  perform-Chain : (call : Call) (s : Tables) → Consistent s → Chain s (perform server call s)
  perform-Chain (spawns request) s k = one (perform-Change (spawns request) s refl k)
  perform-Chain (completes r result) s k = one (perform-Change (completes r result) s refl k)
  perform-Chain (schedules r at) s k = one (perform-Change (schedules r at) s refl k)
  perform-Chain (fails r reason expired) s k =
      one (perform-Change (fails r reason expired) s refl k)
  perform-Chain (cancels t) s k = one (perform-Change (cancels t) s refl k)
  perform-Chain (retries t) s k = one (perform-Change (retries t) s refl k)
  perform-Chain (supervises r seconds) s k = one (perform-Change (supervises r seconds) s refl k)
  perform-Chain (claims scans w lease quantity names) s k =
      unfold perform in
      settled-Chain s (claim_tasks server scans w lease quantity names s)
        λ x v e. claim_tasks-Chain server scans w lease quantity names s v x k e
  perform-Chain (commits t name state r) s k =
      one (perform-Change (commits t name state r) s refl k)

  pub perform_all-Chain :
      (calls : List Call) (s : Tables) → Consistent s → Chain s (perform_all server calls s)
  unfolding perform_all
  perform_all-Chain [] s k = done
  perform_all-Chain (call ∷ calls) s k =
      let c = perform-Chain call s k in
      join c (perform_all-Chain calls (perform server call s) (Chain-Consistent c k))

  -- Consistent tables stay so after any calls, raising ones among them: every run belongs to a task,
  -- only the last run of a task is active, in the task's state, and only a running run has an owner
  -- and a lease; the last run of a task is there, its attempt is the task's and within its budget, and
  -- it is active if the task is.
  pub perform_all-IsConsistent :
      (calls : List Call) (s : Tables)
      → IsConsistent s.tasks s.runs
      → IsConsistent (perform_all server calls s).tasks (perform_all server calls s).runs
  perform_all-IsConsistent calls s k = Chain-Consistent (perform_all-Chain calls s k) k

  -- After any calls on consistent tables, a task has at most one pending, running or sleeping run, as
  -- the index of the table demands.
  pub perform_all-one_active :
      (calls : List Call) (s : Tables)
      → IsConsistent s.tasks s.runs
      → (r q : ℕ) (a b : RunRow) → (perform_all server calls s).runs r ≡ some a
      → (perform_all server calls s).runs q ≡ some b
      → a.task_id ≡ b.task_id
      → is_active a.state ≡ true
      → is_active b.state ≡ true
      → r ≡ q
  perform_all-one_active calls s k r q a b p1 p2 same act1 act2 =
      let v = perform_all server calls s in
      let h = perform_all-IsConsistent calls s k in
      let o = h.owned r a p1 in
      let u = h.owned q b p2 in
      let task : o.task ≡ u.task =
        same_row (subst (λ i. v.tasks i ≡ some o.task) same o.found) u.found in
      sym (o.last act1) ∙ ap (λ (x : TaskRow). x.last_attempt_run) task ∙ u.last act2
