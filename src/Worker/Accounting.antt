-- ===== src/Worker/Accounting.antt =====
-- The counters of a worker's loop balance: what it counts as claimed, it counts as executed once it
-- has returned.
use steda.Prelude.{
  ℕ, suc, ◌+◌, ◌≤◌, ◌≡◌, refl, Option, none, some, List, length, length-append, arith, ◌⊎◌, subst,
  sym, ap, ltb→lt,
}
use steda.Text.{Str}
use steda.Error.{Error, Result, ok, err}
use steda.Options.{i32_max, u64_max}
use steda.World.{Database, Clock}
use steda.Metrics.{
  QueueMetrics, new, record_claimed, record_claim_error, completed, failed, lease_lost, cancelled,
  suspended,
}
use steda.Metrics.Accounting.{End, drops, finishes, execute}
use steda.Executor.{Rendering}
use steda.Worker.{Worker}
use steda.Worker.Loop.{
  Phase, joining, waiting, checking, idling, draining, returned, WorkerLoop, Input, after_join,
  leave, available, after_claim, run_loop, fresh_loop,
}
use steda.Worker.Loop.Joins.{length-take_at}
use steda.Worker.Bounds.{executing-after_join, executing-failed_claim}
use steda.Worker.Errors.{run_loop-IsFatal}
use steda.Worker.Loop.Transitions.{
  Transition, left, claimed, overflowed, moved, slept, finished, run_loop_inv,
}

metrics-after_join :
    {S : Type 0} (p : Phase) (o : Option Error) (w : WorkerLoop S)
    → (after_join p o w).metrics ≡ w.metrics
metrics-after_join draining o w = refl
metrics-after_join joining (some e) w = refl
metrics-after_join joining none w = refl
metrics-after_join waiting (some e) w = refl
metrics-after_join waiting none w = refl
metrics-after_join checking (some e) w = refl
metrics-after_join checking none w = refl
metrics-after_join idling (some e) w = refl
metrics-after_join idling none w = refl
metrics-after_join (returned r) (some e) w = refl
metrics-after_join (returned r) none w = refl

-- The claimed runs are those executed and `pending` more, unless their counter is at its limit.
pub record IsCounted (pending : ℕ) (m : QueueMetrics) : Type 0 where
  pub balanced : (m.claimed_runs ≡ u64_max) ⊎ (m.executions + pending ≡ m.claimed_runs)
  pub bounded : m.claimed_runs ≤ u64_max

execute-IsCounted :
    (end : End) (elapsed pending : ℕ) (m : QueueMetrics)
    → IsCounted (suc pending) m
    → IsCounted pending (execute end elapsed m)
unfolding execute
execute-IsCounted drops elapsed pending m h = ground arith
execute-IsCounted (finishes completed) elapsed pending m h = ground arith
execute-IsCounted (finishes failed) elapsed pending m h = ground arith
execute-IsCounted (finishes lease_lost) elapsed pending m h = ground arith
execute-IsCounted (finishes cancelled) elapsed pending m h = ground arith
execute-IsCounted (finishes suspended) elapsed pending m h = ground arith

claimed-IsCounted :
    (count pending : ℕ) (m : QueueMetrics)
    → IsCounted pending m
    → IsCounted (pending + count) (record_claimed count m)
unfolding record_claimed
claimed-IsCounted count pending m h = ground arith

failed-IsCounted :
    (pending : ℕ) (m : QueueMetrics)
    → IsCounted pending m
    → IsCounted pending (record_claim_error m)
unfolding record_claim_error
failed-IsCounted pending m h = ground arith

module _ {S : Type 0} (db : Database S) (clock : Clock S) (rendering : Rendering)
    (worker : Worker S) (worker_id : Str) (lease_seconds : ℕ) where
  abbrev Counts : WorkerLoop S → Type 0
  Counts w = IsCounted (length w.executing) w.metrics

  metrics-failed_claim :
      (w : WorkerLoop S) (x : Error) (t : S)
      → (after_claim db clock rendering worker worker_id lease_seconds w (err x, t)).metrics
        ≡ record_claim_error w.metrics
  metrics-failed_claim w x t = ground arith

  -- Nothing that counts has changed.
  same-Counts :
      (w v : WorkerLoop S) → v.executing ≡ w.executing → v.metrics ≡ w.metrics → Counts w → Counts v
  same-Counts w v e m h =
      subst (λ (k : ℕ). IsCounted k v.metrics) (ap length (sym e))
        (subst (IsCounted (length w.executing)) (sym m) h)

  Transition-Counts :
      worker.runtime.concurrency ≤ i32_max
      → (w v : WorkerLoop S) → Transition db clock rendering worker worker_id lease_seconds w v
      → Counts w
      → Counts v
  Transition-Counts fits w v (left n task rest end elapsed t o j q f e) h =
      let after : WorkerLoop S = leave rest end elapsed t w in
      let counted =
        execute-IsCounted end elapsed (length rest) w.metrics
          (subst (λ (k : ℕ). IsCounted k w.metrics) (length-take_at n w.executing q) h) in
      subst Counts (sym e) (
        same-Counts after (after_join w.phase o after) (executing-after_join w.phase o after)
          (metrics-after_join w.phase o after) counted)
  Transition-Counts fits w v (claimed (ok tasks, t) p c e) h = subst Counts (sym e) (
      subst (λ (k : ℕ). IsCounted k (record_claimed (length tasks) w.metrics))
        (sym (length-append w.executing tasks))
        (claimed-IsCounted (length tasks) (length w.executing) w.metrics h))
  Transition-Counts fits w v (claimed (err x, t) p c e) h =
      let counted : WorkerLoop S = record w { metrics = record_claim_error w.metrics } in
      subst Counts (sym e) (
        same-Counts counted
          (after_claim db clock rendering worker worker_id lease_seconds w (err x, t))
          (executing-failed_claim db clock rendering worker worker_id lease_seconds w x t)
          (metrics-failed_claim w x t) (failed-IsCounted (length w.executing) w.metrics h))
  Transition-Counts fits w v (overflowed wide p e) h = absurd (
      omega (
        arith,
        ltb→lt i32_max (available db clock rendering worker worker_id lease_seconds w) wide,
      ))
  Transition-Counts fits w v (moved p m e) h = subst Counts (sym e) h
  Transition-Counts fits w v (slept p e) h = subst Counts (sym e) h
  Transition-Counts fits w v (finished p n e) h = subst Counts (sym e) h

  -- When a worker on new counters has returned, it has counted as many executions as claimed runs,
  -- unless the counter of claimed runs is at its limit.
  pub run_loop-balanced :
      worker.runtime.concurrency ≤ i32_max
      → (inputs : List (Input S)) (s : S) (v : WorkerLoop S) (r : Result (Unit {0}) Error)
      → run_loop db clock rendering worker worker_id lease_seconds inputs (fresh_loop new s)
        ≡ some v
      → v.phase ≡ returned r
      → (v.metrics.claimed_runs ≡ u64_max) ⊎ (v.metrics.executions ≡ v.metrics.claimed_runs)
  unfolding new
  run_loop-balanced fits inputs s v r e p =
      let h =
        run_loop_inv db clock rendering worker worker_id lease_seconds Counts
          (Transition-Counts fits) inputs (fresh_loop new s) v e (omega arith) in
      let (empty, _) =
        run_loop-IsFatal db clock rendering worker worker_id lease_seconds fits inputs new s v r e
          p in
      ground (arith, h.balanced, ap length empty)
