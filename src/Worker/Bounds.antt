-- ===== src/Worker/Bounds.antt =====
-- A worker never has more attempts in flight than its concurrency.
use steda.Prelude.{
  ℕ, ◌-◌, ◌≤◌, ◌≡◌, refl, Option, none, some, List, length, length-append, arith, ap,
}
use steda.Text.{Str}
use steda.Error.{Error, ok, err}
use steda.Types.{ClaimedTask}
use steda.World.{Database, Clock}
use steda.Db.Claims.{ClaimsAtMost, length-Decodes, claim_tasks-ok}
use steda.Metrics.{QueueMetrics}
use steda.Executor.{Rendering}
use steda.Worker.{Worker, registered_task_names}
use steda.Worker.Loop.{
  Phase, joining, waiting, checking, idling, draining, returned, WorkerLoop, Input, after_join,
  leave, available, after_claim, run_loop, fresh_loop,
}
use steda.Worker.Loop.Joins.{length-take_at}
use steda.Worker.Loop.Transitions.{
  Transition, left, claimed, overflowed, moved, slept, finished, claimed_by, run_loop_inv,
}

pub executing-after_join :
    {S : Type 0} (p : Phase) (o : Option Error) (w : WorkerLoop S)
    → (after_join p o w).executing ≡ w.executing
executing-after_join draining o w = refl
executing-after_join joining (some e) w = refl
executing-after_join joining none w = refl
executing-after_join waiting (some e) w = refl
executing-after_join waiting none w = refl
executing-after_join checking (some e) w = refl
executing-after_join checking none w = refl
executing-after_join idling (some e) w = refl
executing-after_join idling none w = refl
executing-after_join (returned r) (some e) w = refl
executing-after_join (returned r) none w = refl

module _ {S : Type 0} (db : Database S) (clock : Clock S) (rendering : Rendering)
    (worker : Worker S) (worker_id : Str) (lease_seconds : ℕ) where
  abbrev pub IsBounded : WorkerLoop S → Type 0
  IsBounded w = length w.executing ≤ worker.runtime.concurrency

  pub claimed-length :
      ClaimsAtMost db
      → (w : WorkerLoop S) (t : S) (tasks : List ClaimedTask)
      → claimed_by db clock rendering worker worker_id lease_seconds w ≡ (ok tasks, t)
      → length tasks ≤ worker.runtime.concurrency - length w.executing
  claimed-length most w t tasks e =
      let (rows, q, d) =
        claim_tasks-ok db worker.queue.name worker_id lease_seconds
          (available db clock rendering worker worker_id lease_seconds w)
          (registered_task_names worker.registry) w.store t tasks e in
      let few =
        most worker.queue.name worker_id lease_seconds
          (available db clock rendering worker worker_id lease_seconds w)
          (registered_task_names worker.registry) w.store t rows q in
      omega (arith, few, length-Decodes rows tasks d)

  pub executing-failed_claim :
      (w : WorkerLoop S) (x : Error) (t : S)
      → (after_claim db clock rendering worker worker_id lease_seconds w (err x, t)).executing
        ≡ w.executing
  executing-failed_claim w x t = ground arith

  pub Transition-IsBounded :
      ClaimsAtMost db
      → (w v : WorkerLoop S) → Transition db clock rendering worker worker_id lease_seconds w v
      → IsBounded w
      → IsBounded v
  Transition-IsBounded most w v (left n task rest end elapsed t o j q f e) b = omega (
    arith,
    length-take_at n w.executing q,
    ap (λ (u : WorkerLoop S). length u.executing) e,
    ap length (executing-after_join w.phase o (leave rest end elapsed t w)),
  )
  Transition-IsBounded most w v (claimed (ok tasks, t) p c e) b = omega (
    arith,
    ap (λ (u : WorkerLoop S). length u.executing) e,
    length-append w.executing tasks,
    claimed-length most w t tasks c,
  )
  Transition-IsBounded most w v (claimed (err x, t) p c e) b = omega (
    arith,
    ap (λ (u : WorkerLoop S). length u.executing) e,
    ap length (executing-failed_claim w x t),
  )
  Transition-IsBounded most w v (overflowed wide p e) b =
      omega (arith, ap (λ (u : WorkerLoop S). length u.executing) e)
  Transition-IsBounded most w v (moved p m e) b =
      omega (arith, ap (λ (u : WorkerLoop S). length u.executing) e)
  Transition-IsBounded most w v (slept p e) b =
      omega (arith, ap (λ (u : WorkerLoop S). length u.executing) e)
  Transition-IsBounded most w v (finished p n e) b =
      omega (arith, ap (λ (u : WorkerLoop S). length u.executing) e)

  -- A worker never has more attempts in flight than its concurrency, whatever happens to it: where
  -- the database returns at most as many claimed runs as it is asked for.
  pub run_loop-IsBounded :
      ClaimsAtMost db
      → (inputs : List (Input S)) (metrics : QueueMetrics) (s : S) (v : WorkerLoop S)
      → run_loop db clock rendering worker worker_id lease_seconds inputs (fresh_loop metrics s)
        ≡ some v
      → length v.executing ≤ worker.runtime.concurrency
  run_loop-IsBounded most inputs metrics s v e =
      run_loop_inv db clock rendering worker worker_id lease_seconds IsBounded
        (Transition-IsBounded most) inputs (fresh_loop metrics s) v e (omega arith)
