-- ===== src/Worker/Loop/Transitions.antt =====
-- The transitions of the loop, each with what has been found out when it is made.
use steda.Prelude.{
  ℕ, ◌≡◌, refl, true, Option, none, some, List, [], ◌∷◌, ltb, is_empty, arith, ◌==◌, Bool-cases,
  inl, inr, subst, sym,
}
use steda.Text.{Str}
use steda.Error.{Error, Result, err}
use steda.Types.{ClaimedTask}
use steda.Options.{i32_max}
use steda.Options.Stages.{OnSome}
use steda.World.{Database, Clock}
use steda.Db.{claim_tasks}
use steda.Metrics.Accounting.{End, drops}
use steda.Executor.{Rendering, Turn, Attempt, execute_task}
use steda.Worker.{Worker, default_poll_interval, registered_task_names}
use steda.Worker.Loop.{
  Phase, joining, waiting, checking, idling, draining, returned, WorkerLoop, Input, joins, aborts,
  none_ready, shuts_down, proceeds, sleeps, take_at, attempt_result, ended, failed_join,
  terminal_join_error, is_joining, after_join, leave, outcome, available, join_attempt,
  abort_attempt, after_attempt, after_claim, claim, after_none, after_shutdown, after_check,
  after_idling, loop_step, run_loop, too_wide,
}
use steda.Worker.Loop.Joins.{IsFatal, attempt_result-IsFatal, failed_join-IsFatal}

empty_list {ℓ} : {A : Type ℓ} (xs : List A) → is_empty xs ≡ true → xs ≡ []
empty_list [] h = refl
empty_list (x ∷ xs) h = cc

-- The moves of the loop that change its phase alone.
pub data Moves : Phase → Phase → Type 0 where
  fills : Moves joining waiting
  has_room : Moves joining checking
  resumes : Moves waiting joining
  stops_waiting : Moves waiting draining
  stops_checking : Moves checking draining
  stops_idling : Moves idling draining

module _ {S : Type 0} (db : Database S) (clock : Clock S) (rendering : Rendering)
    (worker : Worker S) (worker_id : Str) (lease_seconds : ℕ) where
  abbrev pub claimed_by : WorkerLoop S → Result (List ClaimedTask) Error × S
  claimed_by w =
      claim_tasks db worker.queue.name worker_id lease_seconds
        (available db clock rendering worker worker_id lease_seconds w)
        (registered_task_names worker.registry) w.store

  pub data Transition (w v : WorkerLoop S) : Type 0 where
    left :
        (n : ℕ) (task : ClaimedTask) (rest : List ClaimedTask) (end : End) (elapsed : ℕ) (t : S)
        (o : Option Error)
        → is_joining w.phase ≡ true
        → take_at n w.executing ≡ some (task, rest)
        → OnSome IsFatal o
        → v ≡ after_join w.phase o (leave rest end elapsed t w)
        → Transition w v
    claimed :
        (a : Result (List ClaimedTask) Error × S)
        → w.phase ≡ checking
        → claimed_by w ≡ a
        → v ≡ after_claim db clock rendering worker worker_id lease_seconds w a
        → Transition w v
    overflowed :
        ltb i32_max (available db clock rendering worker worker_id lease_seconds w) ≡ true
        → w.phase ≡ checking
        → v ≡ record w {
          phase = returned (err (too_wide db clock rendering worker worker_id lease_seconds));
          executing = [];
        }
        → Transition w v
    moved : (p : Phase) → Moves w.phase p → v ≡ record w { phase = p } → Transition w v
    slept :
        w.phase ≡ idling
        → v ≡ record w { phase = joining; store = clock.sleep default_poll_interval w.store }
        → Transition w v
    finished :
        w.phase ≡ draining
        → w.executing ≡ []
        → v ≡ record w { phase = returned (outcome w.terminal_error) }
        → Transition w v

  join-Transition :
      (n : ℕ) (turns : List Turn) (elapsed : ℕ) (w v : WorkerLoop S)
      → is_joining w.phase ≡ true
      → join_attempt db clock rendering worker worker_id lease_seconds turns elapsed w
          (take_at n w.executing)
        ≡ some v
      → Transition w v
  unfolding join_attempt
  join-Transition n turns elapsed w v j e = go (take_at n w.executing) refl e
    where
      ends :
          (task : ClaimedTask) (rest : List ClaimedTask)
          → take_at n w.executing ≡ some (task, rest)
          → (a : Option (Attempt S))
          → after_attempt db clock rendering worker worker_id lease_seconds rest elapsed w a
            ≡ some v
          → Transition w v
      ends task rest q none h = cc
      ends task rest q (some (r, end, t)) h =
          left n task rest end elapsed t (terminal_join_error (ended (attempt_result r))) j q
            (attempt_result-IsFatal r) (cc)

      go :
          (o : Option (ClaimedTask × List ClaimedTask))
          → take_at n w.executing ≡ o
          → join_attempt db clock rendering worker worker_id lease_seconds turns elapsed w o
            ≡ some v
          → Transition w v
      go none q h = cc
      go (some (task, rest)) q h =
          ends task rest q
            (execute_task db rendering worker.queue.execution worker.queue.name worker.registry task
              lease_seconds turns w.store)
            h

  abort-Transition :
      (n : ℕ) (change : S → S) (elapsed : ℕ) (message : Str) (w v : WorkerLoop S)
      → is_joining w.phase ≡ true
      → abort_attempt db clock rendering worker worker_id lease_seconds change elapsed message w
          (take_at n w.executing)
        ≡ some v
      → Transition w v
  unfolding abort_attempt
  abort-Transition n change elapsed message w v j e = go (take_at n w.executing) refl e
    where
      go :
          (o : Option (ClaimedTask × List ClaimedTask))
          → take_at n w.executing ≡ o
          → abort_attempt db clock rendering worker worker_id lease_seconds change elapsed message w
              o
            ≡ some v
          → Transition w v
      go none q h = cc
      go (some (task, rest)) q h =
          left n task rest drops elapsed (change w.store)
            (terminal_join_error (failed_join message)) j q (failed_join-IsFatal message) (cc)

  moves :
      (w v : WorkerLoop S) (p q : Phase)
      → w.phase ≡ p
      → Moves p q
      → v ≡ record w { phase = q }
      → Transition w v
  moves w v p q e m h = moved q (subst (λ (k : Phase). Moves k q) (sym e) m) h

  none-Transition :
      (w v : WorkerLoop S) (p : Phase)
      → w.phase ≡ p
      → after_none db clock rendering worker worker_id lease_seconds p w ≡ some v
      → Transition w v
  none-Transition w v joining q h =
      elim (Bool-cases (available db clock rendering worker worker_id lease_seconds w == 0)) [
        | inl full ↦ moves w v joining waiting q fills (ground (arith, h, full))
        | inr room ↦ moves w v joining checking q has_room (ground (arith, h, room))
      ]
  none-Transition w v waiting q h = elim (Bool-cases (is_empty w.executing)) [
    | inl empty ↦ moves w v waiting joining q resumes (ground (arith, h, empty))
    | inr busy ↦ absurd (ground (arith, h, busy))
  ]
  none-Transition w v checking q h = cc
  none-Transition w v idling q h = cc
  none-Transition w v draining q h = elim (Bool-cases (is_empty w.executing)) [
    | inl empty ↦ finished q (empty_list w.executing empty) (ground (arith, h, empty))
    | inr busy ↦ absurd (ground (arith, h, busy))
  ]
  none-Transition w v (returned r) q h = cc

  shutdown-Transition :
      (w v : WorkerLoop S) (p : Phase)
      → w.phase ≡ p
      → after_shutdown db clock rendering worker worker_id lease_seconds p w ≡ some v
      → Transition w v
  shutdown-Transition w v joining q h = cc
  shutdown-Transition w v waiting q h = moves w v waiting draining q stops_waiting (cc)
  shutdown-Transition w v checking q h = moves w v checking draining q stops_checking (cc)
  shutdown-Transition w v idling q h = moves w v idling draining q stops_idling (cc)
  shutdown-Transition w v draining q h = cc
  shutdown-Transition w v (returned r) q h = cc

  idling-Transition :
      (w v : WorkerLoop S) (p : Phase)
      → w.phase ≡ p
      → after_idling db clock rendering worker worker_id lease_seconds p w ≡ some v
      → Transition w v
  idling-Transition w v joining q h = cc
  idling-Transition w v waiting q h = cc
  idling-Transition w v checking q h = cc
  idling-Transition w v idling q h = slept q (cc)
  idling-Transition w v draining q h = cc
  idling-Transition w v (returned r) q h = cc

  claim-Transition :
      (w v : WorkerLoop S)
      → w.phase ≡ checking
      → claim db clock rendering worker worker_id lease_seconds w ≡ v
      → Transition w v
  unfolding claim
  claim-Transition w v q h =
      elim (Bool-cases
        (ltb i32_max (available db clock rendering worker worker_id lease_seconds w))) [
          | inl wide ↦ overflowed wide q (ground (arith, h, wide))
          | inr fits ↦ claimed (claimed_by w) q refl (ground (arith, h, fits))
        ]

  check-Transition :
      (w v : WorkerLoop S) (p : Phase)
      → w.phase ≡ p
      → after_check db clock rendering worker worker_id lease_seconds p w ≡ some v
      → Transition w v
  check-Transition w v joining q h = cc
  check-Transition w v waiting q h = cc
  check-Transition w v checking q h = claim-Transition w v q (cc)
  check-Transition w v idling q h = cc
  check-Transition w v draining q h = cc
  check-Transition w v (returned r) q h = cc

  -- Every step of the loop is one of the transitions.
  pub loop_step-Transition :
      (i : Input S) (w v : WorkerLoop S)
      → loop_step db clock rendering worker worker_id lease_seconds i w ≡ some v
      → Transition w v
  unfolding loop_step
  loop_step-Transition (joins n turns elapsed) w v e = elim (Bool-cases (is_joining w.phase)) [
    | inl j ↦ join-Transition n turns elapsed w v j (ground arith)
    | inr j ↦ absurd (ground arith)
  ]
  loop_step-Transition (aborts n change elapsed message) w v e =
      elim (Bool-cases (is_joining w.phase)) [
        | inl j ↦ abort-Transition n change elapsed message w v j (ground arith)
        | inr j ↦ absurd (ground arith)
      ]
  loop_step-Transition none_ready w v e = none-Transition w v w.phase refl e
  loop_step-Transition shuts_down w v e = shutdown-Transition w v w.phase refl e
  loop_step-Transition proceeds w v e = check-Transition w v w.phase refl e
  loop_step-Transition sleeps w v e = idling-Transition w v w.phase refl e

  -- What every transition keeps, every run keeps.
  pub run_loop_inv :
      (P : WorkerLoop S → Type 0)
      → ((w v : WorkerLoop S) → Transition w v → P w → P v)
      → (inputs : List (Input S)) (w v : WorkerLoop S)
      → run_loop db clock rendering worker worker_id lease_seconds inputs w ≡ some v
      → P w
      → P v
  unfolding run_loop
  run_loop_inv P keep [] w v e h = let same : w ≡ v = cc in subst P same h
  run_loop_inv P keep (i ∷ inputs) w v e h =
      go (loop_step db clock rendering worker worker_id lease_seconds i w) refl
        (run_loop_inv P keep inputs)
    where
      go :
          (o : Option (WorkerLoop S))
          → loop_step db clock rendering worker worker_id lease_seconds i w ≡ o
          → ((u x : WorkerLoop S)
              → run_loop db clock rendering worker worker_id lease_seconds inputs u ≡ some x
              → P u
              → P x)
          → P v
      go none q rest = absurd (ground arith)
      go (some u) q rest = rest u v (ground arith) (keep w u (loop_step-Transition i w u q) h)
