-- ===== src/Worker/Drain.antt =====
-- A worker that shuts down, or stops on an error, claims nothing more and drains what it has.
use steda.Prelude.{
  ℕ, ◌≤◌, ◌≡◌, refl, Bool, true, false, Option, some, List, length, arith, subst, sym, ap, ◌∙◌,
}
use steda.Text.{Str}
use steda.Error.{Error, Result}
use steda.World.{Database, Clock}
use steda.Metrics.{QueueMetrics, completed, failed, lease_lost, cancelled, suspended}
use steda.Metrics.Accounting.{End, drops, finishes, execute}
use steda.Executor.{Rendering}
use steda.Worker.{Worker}
use steda.Worker.Loop.{
  Phase, joining, waiting, checking, idling, draining, returned, WorkerLoop, Input, is_joining,
  after_join, leave, run_loop,
}
use steda.Worker.Loop.Joins.{length-take_at}
use steda.Worker.Loop.Transitions.{
  Moves, fills, has_room, resumes, stops_waiting, stops_checking, stops_idling, Transition, left,
  claimed, overflowed, moved, slept, finished, run_loop_inv,
}

-- The worker has stopped claiming.
abbrev pub is_stopping : Phase → Bool
is_stopping draining = true
is_stopping (returned r) = true
is_stopping _ = false

execute-claims :
    (end : End) (elapsed : ℕ) (m : QueueMetrics)
    → ((execute end elapsed m).claimed_runs ≡ m.claimed_runs)
      × ((execute end elapsed m).claim_errors ≡ m.claim_errors)
unfolding execute
execute-claims drops elapsed m = (ground arith, ground arith)
execute-claims (finishes completed) elapsed m = (ground arith, ground arith)
execute-claims (finishes failed) elapsed m = (ground arith, ground arith)
execute-claims (finishes lease_lost) elapsed m = (ground arith, ground arith)
execute-claims (finishes cancelled) elapsed m = (ground arith, ground arith)
execute-claims (finishes suspended) elapsed m = (ground arith, ground arith)

Moves-before : {p q : Phase} → Moves p q → is_stopping p ≡ false
Moves-before fills = refl
Moves-before has_room = refl
Moves-before resumes = refl
Moves-before stops_waiting = refl
Moves-before stops_checking = refl
Moves-before stops_idling = refl

module _ {S : Type 0} where
  -- Where a state has come from one in which the worker was stopping.
  pub record HasStopped (w v : WorkerLoop S) : Type 0 where
    pub stopping : is_stopping v.phase ≡ true
    pub claimed_runs : v.metrics.claimed_runs ≡ w.metrics.claimed_runs
    pub claim_errors : v.metrics.claim_errors ≡ w.metrics.claim_errors
    pub fewer : length v.executing ≤ length w.executing

  -- In a stopping phase an attempt is joined by draining.
  stopping_join :
      (p : Phase) (o : Option Error) (w v : WorkerLoop S)
      → is_stopping p ≡ true
      → is_joining p ≡ true
      → w.phase ≡ p
      → v ≡ after_join p o w
      → (v.phase ≡ draining) × (v.metrics ≡ w.metrics) × (v.executing ≡ w.executing)
  stopping_join draining o w v s j q e = (
    ap (λ (u : WorkerLoop S). u.phase) e ∙ q,
    ap (λ (u : WorkerLoop S). u.metrics) e,
    ap (λ (u : WorkerLoop S). u.executing) e,
  )
  stopping_join joining o w v s j q e = cc
  stopping_join waiting o w v s j q e = cc
  stopping_join checking o w v s j q e = cc
  stopping_join idling o w v s j q e = cc
  stopping_join (returned r) o w v s j q e = cc

module _ {S : Type 0} (db : Database S) (clock : Clock S) (rendering : Rendering)
    (worker : Worker S) (worker_id : Str) (lease_seconds : ℕ) where
  Transition-HasStopped :
      (u w v : WorkerLoop S)
      → Transition db clock rendering worker worker_id lease_seconds w v
      → HasStopped u w
      → HasStopped u v
  Transition-HasStopped u w v (left n task rest end elapsed t o j q f e) h =
      let after : WorkerLoop S = leave rest end elapsed t w in
      let (phase, metrics, executing) = stopping_join w.phase o after v h.stopping j refl e in
      let (runs, errors) = execute-claims end elapsed w.metrics in
      record {
        stopping = subst (λ (p : Phase). is_stopping p ≡ true) (sym phase) refl;
        claimed_runs = ap (λ (m : QueueMetrics). m.claimed_runs) metrics ∙ runs ∙ h.claimed_runs;
        claim_errors = ap (λ (m : QueueMetrics). m.claim_errors) metrics ∙ errors ∙ h.claim_errors;
        fewer = omega (arith, ap length executing, length-take_at n w.executing q, h);
      }
  Transition-HasStopped u w v (claimed a p c e) h = absurd (ground (arith, h.stopping, p))
  Transition-HasStopped u w v (overflowed wide p e) h = absurd (ground (arith, h.stopping, p))
  Transition-HasStopped u w v (moved p m e) h = absurd (ground (arith, h.stopping, Moves-before m))
  Transition-HasStopped u w v (slept p e) h = absurd (ground (arith, h.stopping, p))
  Transition-HasStopped u w v (finished p n e) h = record {
    stopping = ground (arith, e);
    claimed_runs = ap (λ (x : WorkerLoop S). x.metrics.claimed_runs) e ∙ h.claimed_runs;
    claim_errors = ap (λ (x : WorkerLoop S). x.metrics.claim_errors) e ∙ h.claim_errors;
    fewer = omega (arith, ap (λ (x : WorkerLoop S). length x.executing) e, h);
  }

  -- A worker that is stopping goes on stopping, whatever happens: it makes no further claim, neither
  -- one that succeeds nor one that fails, and starts no further attempt.
  pub run_loop-HasStopped :
      (inputs : List (Input S)) (w v : WorkerLoop S)
      → is_stopping w.phase ≡ true
      → run_loop db clock rendering worker worker_id lease_seconds inputs w ≡ some v
      → HasStopped w v
  run_loop-HasStopped inputs w v s e =
      run_loop_inv db clock rendering worker worker_id lease_seconds (HasStopped w)
        (Transition-HasStopped w) inputs w v e
        (record { stopping = s; claimed_runs = refl; claim_errors = refl; fewer = omega arith })

  abbrev Returns : WorkerLoop S → Type 0
  Returns w =
      (inputs : List (Input S)) × (v : WorkerLoop S) × (r : Result (Unit {0}) Error) × (run_loop db
          clock rendering worker worker_id lease_seconds inputs w
        ≡ some v)
      × (v.phase ≡ returned r)
