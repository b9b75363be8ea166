-- ===== src/Worker/Capabilities.antt =====
-- A worker executes only tasks that it has registered.
use steda.Prelude.{
  ℕ, ◌≡◌, true, some, List, [], ◌∷◌, ◌++◌, arith, All, Bool-cases, inl, inr, subst, sym,
}
use steda.Text.{Str, str_eq}
use steda.Error.{ok, err}
use steda.Types.{ClaimedTask}
use steda.World.{Database, Clock}
use steda.Db.Claims.{ClaimsSupported, supports, supported-Decodes, claim_tasks-ok}
use steda.Metrics.{QueueMetrics}
use steda.Executor.{Rendering, lookup_executor, TaskExecutor}
use steda.Worker.{Worker, Registry, registered_task_names}
use steda.Worker.Loop.{
  WorkerLoop, Input, after_join, leave, available, after_claim, run_loop, fresh_loop,
}
use steda.Worker.Loop.Joins.{take_at-All}
use steda.Worker.Loop.Transitions.{
  Transition, left, claimed, overflowed, moved, slept, finished, claimed_by, run_loop_inv,
}
use steda.Worker.Bounds.{executing-after_join, executing-failed_claim}

-- The registry has an executor for the task.
abbrev pub IsExecutable : {S : Type 0} → Registry S → ClaimedTask → Type 0
IsExecutable {S} registry task =
    (e : TaskExecutor S) × (lookup_executor task.task_name registry ≡ some e)

lookup_executor-supports :
    {S : Type 0} (registry : Registry S) (name : Str)
    → supports (registered_task_names registry) name ≡ true
    → (e : TaskExecutor S) × (lookup_executor name registry ≡ some e)
unfolding supports registered_task_names
lookup_executor-supports [] name h = cc
lookup_executor-supports ((n, x) ∷ registry) name h = elim (Bool-cases (str_eq name n)) [
  | inl e ↦ (x, ground (arith, e))
  | inr e ↦
      let (y, q) = lookup_executor-supports registry name (ground (arith, e, h)) in
      (y, ground (arith, e, q))
]

All-map {ℓ κ μ} :
    {A : Type ℓ} (P : A → Type κ) (Q : A → Type μ)
    → ((a : A) → P a → Q a)
    → (xs : List A) → All P xs
    → All Q xs
All-map P Q f [] h = tt
All-map P Q f (x ∷ xs) h = (f x h.0, All-map P Q f xs h.1)

All-append {ℓ κ} :
    {A : Type ℓ} (P : A → Type κ) (xs ys : List A) → All P xs → All P ys → All P (xs ++ ys)
All-append P [] ys h k = k
All-append P (x ∷ xs) ys h k = (h.0, All-append P xs ys h.1 k)

module _ {S : Type 0} (db : Database S) (clock : Clock S) (rendering : Rendering)
    (worker : Worker S) (worker_id : Str) (lease_seconds : ℕ) where
  abbrev Executable : WorkerLoop S → Type 0
  Executable w = All (IsExecutable worker.registry) w.executing

  same-Executable : (w v : WorkerLoop S) → v.executing ≡ w.executing → Executable w → Executable v
  same-Executable w v e h = subst (All (IsExecutable worker.registry)) (sym e) h

  claimed-Executable :
      ClaimsSupported db
      → (w : WorkerLoop S) (t : S) (tasks : List ClaimedTask)
      → claimed_by db clock rendering worker worker_id lease_seconds w ≡ (ok tasks, t)
      → All (IsExecutable worker.registry) tasks
  claimed-Executable supported w t tasks e =
      let names = registered_task_names worker.registry in
      let batch = available db clock rendering worker worker_id lease_seconds w in
      let (rows, q, d) =
        claim_tasks-ok db worker.queue.name worker_id lease_seconds batch names w.store t tasks e in
      All-map (λ task. supports names task.task_name ≡ true) (IsExecutable worker.registry)
        (λ task h. lookup_executor-supports worker.registry task.task_name h) tasks
        (supported-Decodes names rows tasks d
          (supported worker.queue.name worker_id lease_seconds batch names w.store t rows q))

  Transition-Executable :
      ClaimsSupported db
      → (w v : WorkerLoop S) → Transition db clock rendering worker worker_id lease_seconds w v
      → Executable w
      → Executable v
  Transition-Executable supported w v (left n task rest end elapsed t o j q f e) h =
      let after : WorkerLoop S = leave rest end elapsed t w in
      subst Executable (sym e) (
        same-Executable after (after_join w.phase o after) (executing-after_join w.phase o after)
          (take_at-All (IsExecutable worker.registry) n w.executing q h).1)
  Transition-Executable supported w v (claimed (ok tasks, t) p c e) h = subst Executable (sym e) (
      All-append (IsExecutable worker.registry) w.executing tasks h
        (claimed-Executable supported w t tasks c))
  Transition-Executable supported w v (claimed (err x, t) p c e) h = subst Executable (sym e) (
      same-Executable w (after_claim db clock rendering worker worker_id lease_seconds w (err x, t))
        (executing-failed_claim db clock rendering worker worker_id lease_seconds w x t) h)
  Transition-Executable supported w v (overflowed wide p e) h = subst Executable (sym e) tt
  Transition-Executable supported w v (moved p m e) h = subst Executable (sym e) h
  Transition-Executable supported w v (slept p e) h = subst Executable (sym e) h
  Transition-Executable supported w v (finished p n e) h = subst Executable (sym e) h

  -- Every attempt in flight is of a task that the worker has registered, so that none ends for want of
  -- an executor: where the database returns only runs of the tasks that it is asked for.
  pub run_loop-IsExecutable :
      ClaimsSupported db
      → (inputs : List (Input S)) (metrics : QueueMetrics) (s : S) (v : WorkerLoop S)
      → run_loop db clock rendering worker worker_id lease_seconds inputs (fresh_loop metrics s)
        ≡ some v
      → All (IsExecutable worker.registry) v.executing
  run_loop-IsExecutable supported inputs metrics s v e =
      run_loop_inv db clock rendering worker worker_id lease_seconds Executable
        (Transition-Executable supported) inputs (fresh_loop metrics s) v e tt
