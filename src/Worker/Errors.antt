-- ===== src/Worker/Errors.antt =====
-- Which errors a worker returns, and when it returns.
use steda.Prelude.{
  ℕ, ◌≤◌, ◌≡◌, refl, true, false, Option, none, some, List, [], ◌∷◌, arith, Bool-cases, inl, inr,
  ◌⊎◌, subst, sym, ltb→lt,
}
use steda.Text.{Str}
use steda.Error.{Error, Result, ok, err}
use steda.Types.{ClaimedTask}
use steda.Options.{i32_max}
use steda.Options.Stages.{OnSome}
use steda.World.{Database, Clock}
use steda.Db.Claims.{claim_tasks-IsUnusual}
use steda.Metrics.{QueueMetrics}
use steda.Metrics.Accounting.{End}
use steda.Executor.{Rendering}
use steda.Worker.{Worker, is_transient_worker_error, registered_task_names}
use steda.Worker.Loop.{
  Phase, joining, waiting, checking, idling, draining, returned, WorkerLoop, Input, is_joining,
  after_join, leave, outcome, available, after_claim, run_loop, fresh_loop, first_error,
}
use steda.Worker.Loop.Joins.{IsFatal}
use steda.Worker.Loop.Transitions.{
  Moves, fills, has_room, resumes, stops_waiting, stops_checking, stops_idling, Transition, left,
  claimed, overflowed, moved, slept, finished, claimed_by, run_loop_inv,
}

first-OnSome :
    (a b : Option Error) → OnSome IsFatal a → OnSome IsFatal b → OnSome IsFatal (first_error a b)
first-OnSome none b f g = g
first-OnSome (some e) b f g = f

module _ {S : Type 0} where
  -- What the loop knows of its error in each phase.
  abbrev pub Settles : Phase → WorkerLoop S → Type 0
  Settles joining w = w.terminal_error ≡ none
  Settles waiting w = w.terminal_error ≡ none
  Settles checking w = w.terminal_error ≡ none
  Settles idling w = w.terminal_error ≡ none
  Settles draining w = Unit
  Settles (returned r) w = (w.executing ≡ []) × (r ≡ outcome w.terminal_error)

  pub record IsSettled (w : WorkerLoop S) : Type 0 where
    pub fatal : OnSome IsFatal w.terminal_error
    pub phase_settled : Settles w.phase w

  join-IsSettled :
      (p : Phase) (o : Option Error) (w : WorkerLoop S)
      → w.phase ≡ p
      → is_joining p ≡ true
      → OnSome IsFatal o
      → OnSome IsFatal w.terminal_error
      → Settles p w
      → IsSettled (after_join p o w)
  join-IsSettled joining none w q j f a b = record { fatal = a; phase_settled = b }
  join-IsSettled joining (some e) w q j f a b = record { fatal = f; phase_settled = tt }
  join-IsSettled waiting none w q j f a b = record { fatal = a; phase_settled = b }
  join-IsSettled waiting (some e) w q j f a b = record { fatal = f; phase_settled = tt }
  join-IsSettled draining o w q j f a b = record {
    fatal = first-OnSome w.terminal_error o a f;
    phase_settled =
        subst
          (λ (p : Phase). Settles p (record w { terminal_error = first_error w.terminal_error o }))
          (sym q) tt;
  }
  join-IsSettled checking o w q j f a b = cc
  join-IsSettled idling o w q j f a b = cc
  join-IsSettled (returned r) o w q j f a b = cc

  -- A move goes from and to phases that have no error yet, or to draining.
  move-Settles :
      {p q : Phase} (w : WorkerLoop S)
      → Moves p q
      → Settles p w
      → Settles q (record w { phase = q })
  move-Settles w fills h = h
  move-Settles w has_room h = h
  move-Settles w resumes h = h
  move-Settles w stops_waiting h = tt
  move-Settles w stops_checking h = tt
  move-Settles w stops_idling h = tt

  Settles-leave :
      (p : Phase) (w : WorkerLoop S) (rest : List ClaimedTask) (end : End) (elapsed : ℕ) (t : S)
      → is_joining p ≡ true
      → Settles p w
      → Settles p (leave rest end elapsed t w)
  Settles-leave joining w rest end elapsed t j h = h
  Settles-leave waiting w rest end elapsed t j h = h
  Settles-leave draining w rest end elapsed t j h = tt
  Settles-leave checking w rest end elapsed t j h = cc
  Settles-leave idling w rest end elapsed t j h = cc
  Settles-leave (returned r) w rest end elapsed t j h = cc

module _ {S : Type 0} (db : Database S) (clock : Clock S) (rendering : Rendering)
    (worker : Worker S) (worker_id : Str) (lease_seconds : ℕ) where
  -- The error of a claim that is not transient is fatal.
  claim-IsFatal :
      (w : WorkerLoop S) (x : Error) (t : S)
      → claimed_by db clock rendering worker worker_id lease_seconds w ≡ (err x, t)
      → is_transient_worker_error x ≡ false
      → IsFatal x
  claim-IsFatal w x t c h =
      let u =
        claim_tasks-IsUnusual db worker.queue.name worker_id lease_seconds
          (available db clock rendering worker worker_id lease_seconds w)
          (registered_task_names worker.registry) w.store t x c in
      record {
        lasting = h;
        unsuspended = u.unsuspended;
        uncancelled = u.uncancelled;
        unfailed = u.unfailed;
        owned = u.owned;
      }

  IsSettled-claim :
      (w : WorkerLoop S) (a : Result (List ClaimedTask) Error × S)
      → claimed_by db clock rendering worker worker_id lease_seconds w ≡ a
      → w.terminal_error ≡ none
      → IsSettled (after_claim db clock rendering worker worker_id lease_seconds w a)
  IsSettled-claim w (ok [], t) c n = record {
    fatal = subst (OnSome IsFatal) (sym n) tt;
    phase_settled = n;
  }
  IsSettled-claim w (ok (task ∷ tasks), t) c n = record {
    fatal = subst (OnSome IsFatal) (sym n) tt;
    phase_settled = n;
  }
  IsSettled-claim w (err x, t) c n = elim (Bool-cases (is_transient_worker_error x)) [
    | inl e ↦ rw e (record { fatal = subst (OnSome IsFatal) (sym n) tt; phase_settled = n })
    | inr e ↦ rw e (record { fatal = claim-IsFatal w x t c e; phase_settled = tt })
  ]

  phase_known : (w : WorkerLoop S) (p : Phase) → w.phase ≡ p → IsSettled w → Settles p w
  phase_known w p e h = subst (λ (k : Phase). Settles k w) e h.phase_settled

  Transition-IsSettled :
      worker.runtime.concurrency ≤ i32_max
      → (w v : WorkerLoop S) → Transition db clock rendering worker worker_id lease_seconds w v
      → IsSettled w
      → IsSettled v
  Transition-IsSettled fits w v (left n task rest end elapsed t o j q f e) h =
      subst IsSettled (sym e) (
        join-IsSettled w.phase o (leave rest end elapsed t w) refl j f h.fatal
          (Settles-leave w.phase w rest end elapsed t j h.phase_settled))
  Transition-IsSettled fits w v (claimed a p c e) h =
      subst IsSettled (sym e) (IsSettled-claim w a c (phase_known w checking p h))
  Transition-IsSettled fits w v (overflowed wide p e) h = absurd (
      omega (
        arith,
        ltb→lt i32_max (available db clock rendering worker worker_id lease_seconds w) wide,
      ))
  Transition-IsSettled fits w v (moved p m e) h =
      subst IsSettled (sym e)
        (record { fatal = h.fatal; phase_settled = move-Settles w m h.phase_settled })
  Transition-IsSettled fits w v (slept p e) h =
      subst IsSettled (sym e) (record { fatal = h.fatal; phase_settled = phase_known w idling p h })
  Transition-IsSettled fits w v (finished p n e) h =
      subst IsSettled (sym e) (record { fatal = h.fatal; phase_settled = (n, refl) })

  -- A worker whose capacity fits the database returns only when no attempt is in flight, and an error
  -- that it returns is fatal: not transient, and not the suspension, the cancellation, the failure or
  -- the lost lease of a run.
  pub run_loop-IsFatal :
      worker.runtime.concurrency ≤ i32_max
      → (inputs : List (Input S)) (metrics : QueueMetrics) (s : S) (v : WorkerLoop S)
        (r : Result (Unit {0}) Error)
      → run_loop db clock rendering worker worker_id lease_seconds inputs (fresh_loop metrics s)
        ≡ some v
      → v.phase ≡ returned r
      → (v.executing ≡ []) × ((r ≡ ok tt) ⊎ ((e : Error) × (r ≡ err e) × IsFatal e))
  run_loop-IsFatal fits inputs metrics s v r e p =
      let h =
        run_loop_inv db clock rendering worker worker_id lease_seconds IsSettled
          (Transition-IsSettled fits) inputs (fresh_loop metrics s) v e
          (record { fatal = tt; phase_settled = refl }) in
      let (empty, result) = phase_known v (returned r) p h in
      (empty, returns v.terminal_error h.fatal result)
    where
      returns :
          (o : Option Error)
          → OnSome IsFatal o
          → r ≡ outcome o
          → (r ≡ ok tt) ⊎ ((e : Error) × (r ≡ err e) × IsFatal e)
      returns none f q = inl q
      returns (some x) f q = inr (x, q, f)
