-- ===== src/Worker/Executions/Steps.antt =====
-- src/worker.rs: what each input of a worker adds to the calls that it makes.
use mathlib.Core.List.{append_assoc, Permᴰ}
use mathlib.Core.List.Permᴰ
use steda.Prelude.{
  ℕ, ◌≤◌, ◌≡◌, refl, Option, none, some, List, ◌∷◌, ◌++◌, ◌∙◌, arith, subst, ap, Bool-cases, ltb,
  inl, inr, ltb→lt,
}
use steda.Text.{Str}
use steda.Error.{Error, Result, ok, err}
use steda.Types.{ClaimedTask}
use steda.Options.{i32_max}
use steda.World.{Database, Clock}
use steda.Metrics.Accounting.{drops}
use steda.Executor.{Rendering, Turn, Attempt, execute_task}
use steda.Worker.{Worker, default_poll_interval}
use steda.Worker.Loop.{
  available, after_check, attempt_result, leave, ended, failed_join, terminal_join_error,
  after_attempt, after_join, take_at, join_attempt, abort_attempt, Phase, sleeps, shuts_down,
  none_ready, aborts, joins, proceeds, WorkerLoop, Input,
}
use steda.Worker.Loop.{
  joining, waiting, checking, idling, draining, returned, after_claim, claim, loop_step, is_joining,
}
use steda.Worker.Loop.Joins.{take_at-Perm}
use steda.Worker.Bounds.{executing-failed_claim}
use steda.Worker.Loop.Transitions.{claimed_by}
use steda.Worker.Loop.History.{
  Does, claims, fails_to_claim, executes, panics, finds_none, stops, rests, Account, Stays,
  after_join-left, after_none-Stays, after_shutdown-Stays, after_idling-store,
}

module _ {S : Type 0} (db : Database S) (clock : Clock S) (rendering : Rendering)
    (worker : Worker S) (worker_id : Str) (lease_seconds : ℕ) where
  abbrev Accounts : List (Input S) → WorkerLoop S → WorkerLoop S → Type 0
  Accounts = Account db clock rendering worker worker_id lease_seconds

  -- What an input that ends an attempt leaves.
  ended-Account :
      (w u : WorkerLoop S) (n : ℕ) (task : ClaimedTask)
      (rest later executed left : List ClaimedTask)
      → take_at n w.executing ≡ some (task, rest)
      → u.executing ≡ rest
      → Permᴰ (u.executing ++ later) (executed ++ left)
      → Permᴰ (w.executing ++ later) (task ∷ (executed ++ left))
  ended-Account w u n task rest later executed left q same d =
      Permᴰ.trans (Permᴰ.append_right later (take_at-Perm n w.executing q)) (
        Permᴰ.cons refl
          (subst (λ (xs : List ClaimedTask). Permᴰ (xs ++ later) (executed ++ left)) same d))

  join-Account :
      (n : ℕ) (turns : List Turn) (elapsed : ℕ) (inputs : List (Input S)) (w u v : WorkerLoop S)
      → join_attempt db clock rendering worker worker_id lease_seconds turns elapsed w
          (take_at n w.executing)
        ≡ some u
      → Accounts inputs u v
      → Accounts (joins n turns elapsed ∷ inputs) w v
  unfolding join_attempt Account
  join-Account n turns elapsed inputs w u v e (later, executed, does, kept) =
      go (take_at n w.executing) refl e
    where
      runs :
          (task : ClaimedTask) (rest : List ClaimedTask)
          → take_at n w.executing ≡ some (task, rest)
          → (a : Option (Attempt S))
          → execute_task db rendering worker.queue.execution worker.queue.name worker.registry task
              lease_seconds turns w.store
            ≡ a
          → after_attempt db clock rendering worker worker_id lease_seconds rest elapsed w a
            ≡ some u
          → Accounts (joins n turns elapsed ∷ inputs) w v
      runs task rest q none x h = cc
      runs task rest q (some (r, end, t)) x h =
          let o = terminal_join_error (ended (attempt_result r)) in
          let after : WorkerLoop S = leave rest end elapsed t w in
          let same : u ≡ after_join w.phase o after = cc in
          let (store, executing) =
            after_join-left db clock rendering worker worker_id lease_seconds w.phase o after u
              same in
          (
            later,
            task ∷ executed,
            executes n turns elapsed task r end x (
                subst
                  (λ (y : S).
                    Does db clock rendering worker worker_id lease_seconds inputs y v.store later
                      executed)
                  store does),
            ended-Account w u n task rest later executed v.executing q executing kept,
          )

      go :
          (o : Option (ClaimedTask × List ClaimedTask))
          → take_at n w.executing ≡ o
          → join_attempt db clock rendering worker worker_id lease_seconds turns elapsed w o
            ≡ some u
          → Accounts (joins n turns elapsed ∷ inputs) w v
      go none q h = cc
      go (some (task, rest)) q h = runs task rest q _ refl h

  abort-Account :
      (n : ℕ) (change : S → S) (elapsed : ℕ) (message : Str) (inputs : List (Input S))
      (w u v : WorkerLoop S)
      → abort_attempt db clock rendering worker worker_id lease_seconds change elapsed message w
          (take_at n w.executing)
        ≡ some u
      → Accounts inputs u v
      → Accounts (aborts n change elapsed message ∷ inputs) w v
  unfolding abort_attempt Account
  abort-Account n change elapsed message inputs w u v e (later, executed, does, kept) =
      go (take_at n w.executing) refl e
    where
      go :
          (o : Option (ClaimedTask × List ClaimedTask))
          → take_at n w.executing ≡ o
          → abort_attempt db clock rendering worker worker_id lease_seconds change elapsed message w
              o
            ≡ some u
          → Accounts (aborts n change elapsed message ∷ inputs) w v
      go none q h = cc
      go (some (task, rest)) q h =
          let o = terminal_join_error (failed_join message) in
          let after : WorkerLoop S = leave rest drops elapsed (change w.store) w in
          let same : u ≡ after_join w.phase o after = cc in
          let (store, executing) =
            after_join-left db clock rendering worker worker_id lease_seconds w.phase o after u
              same in
          (
            later,
            task ∷ executed,
            panics n change elapsed message task (
                subst
                  (λ (y : S).
                    Does db clock rendering worker worker_id lease_seconds inputs y v.store later
                      executed)
                  store does),
            ended-Account w u n task rest later executed v.executing q executing kept,
          )

  -- An input that changes neither the outside state nor the attempts in flight.
  Stays-Account :
      (i : Input S) (inputs : List (Input S)) (w u v : WorkerLoop S)
      → ((later executed : List ClaimedTask)
          → Does db clock rendering worker worker_id lease_seconds inputs w.store v.store later
              executed
          → Does db clock rendering worker worker_id lease_seconds
              (i ∷ inputs)
              w.store
              v.store
              later
              executed)
      → Stays db clock rendering worker worker_id lease_seconds w u
      → Accounts inputs u v
      → Accounts (i ∷ inputs) w v
  unfolding Account
  Stays-Account i inputs w u v goes (store, executing) (later, executed, does, kept) = (
    later,
    executed,
    goes later executed (
        subst
          (λ (y : S).
            Does db clock rendering worker worker_id lease_seconds inputs y v.store later executed)
          store does),
    subst (λ (xs : List ClaimedTask). Permᴰ (xs ++ later) (executed ++ v.executing)) executing kept,
  )

  sleep-Account :
      (inputs : List (Input S)) (w u v : WorkerLoop S)
      → (u.store ≡ clock.sleep default_poll_interval w.store) × (u.executing ≡ w.executing)
      → Accounts inputs u v
      → Accounts (sleeps ∷ inputs) w v
  unfolding Account
  sleep-Account inputs w u v (store, executing) (later, executed, does, kept) = (
    later,
    executed,
    rests (
        subst
          (λ (y : S).
            Does db clock rendering worker worker_id lease_seconds inputs y v.store later executed)
          store does),
    subst (λ (xs : List ClaimedTask). Permᴰ (xs ++ later) (executed ++ v.executing)) executing kept,
  )

  failed_claim-store :
      (w : WorkerLoop S) (x : Error) (t : S)
      → (after_claim db clock rendering worker worker_id lease_seconds w (err x, t)).store ≡ t
  failed_claim-store w x t = ground arith

  claim-Account :
      worker.runtime.concurrency ≤ i32_max
      → (inputs : List (Input S)) (w u v : WorkerLoop S)
      → claim db clock rendering worker worker_id lease_seconds w ≡ u
      → Accounts inputs u v
      → Accounts (proceeds ∷ inputs) w v
  unfolding claim Account
  claim-Account fits inputs w u v e (later, executed, does, kept) =
      elim (Bool-cases
        (ltb i32_max (available db clock rendering worker worker_id lease_seconds w))) [
          | inl wide ↦ absurd (
              omega (
                arith,
                ltb→lt i32_max (available db clock rendering worker worker_id lease_seconds w) wide,
              ))
          | inr narrow ↦
              go (claimed_by db clock rendering worker worker_id lease_seconds w) refl
                (ground (arith, e, narrow))
        ]
    where
      go :
          (a : Result (List ClaimedTask) Error × S)
          → claimed_by db clock rendering worker worker_id lease_seconds w ≡ a
          → u ≡ after_claim db clock rendering worker worker_id lease_seconds w a
          → Accounts (proceeds ∷ inputs) w v
      go (ok tasks, t) q same =
          let executing : u.executing ++ later ≡ w.executing ++ (tasks ++ later) =
            ap (λ (y : WorkerLoop S). y.executing ++ later) same
            ∙ append_assoc w.executing tasks later in
          (
            tasks ++ later,
            executed,
            claims (available db clock rendering worker worker_id lease_seconds w) tasks q (
                subst
                  (λ (y : S).
                    Does db clock rendering worker worker_id lease_seconds inputs y v.store later
                      executed)
                  (ap (λ (y : WorkerLoop S). y.store) same) does),
            subst (λ (xs : List ClaimedTask). Permᴰ xs (executed ++ v.executing)) executing kept,
          )
      go (err x, t) q same =
          let store : u.store ≡ t =
            ap (λ (y : WorkerLoop S). y.store) same ∙ failed_claim-store w x t in
          let executing : u.executing ≡ w.executing =
            ap (λ (y : WorkerLoop S). y.executing) same
            ∙ executing-failed_claim db clock rendering worker worker_id lease_seconds w x t in
          (
            later,
            executed,
            fails_to_claim (available db clock rendering worker worker_id lease_seconds w) x q (
                subst
                  (λ (y : S).
                    Does db clock rendering worker worker_id lease_seconds inputs y v.store later
                      executed)
                  store does),
            subst (λ (xs : List ClaimedTask). Permᴰ (xs ++ later) (executed ++ v.executing))
                executing kept,
          )

  check-Account :
      worker.runtime.concurrency ≤ i32_max
      → (p : Phase) (inputs : List (Input S)) (w u v : WorkerLoop S)
      → after_check db clock rendering worker worker_id lease_seconds p w ≡ some u
      → Accounts inputs u v
      → Accounts (proceeds ∷ inputs) w v
  check-Account fits joining inputs w u v e h = cc
  check-Account fits waiting inputs w u v e h = cc
  check-Account fits checking inputs w u v e h = claim-Account fits inputs w u v (cc) h
  check-Account fits idling inputs w u v e h = cc
  check-Account fits draining inputs w u v e h = cc
  check-Account fits (returned r) inputs w u v e h = cc

  -- What the rest of a worker's life accounts for, an input before it accounts for with it.
  pub loop_step-Account :
      worker.runtime.concurrency ≤ i32_max
      → (i : Input S) (inputs : List (Input S)) (w u v : WorkerLoop S)
      → loop_step db clock rendering worker worker_id lease_seconds i w ≡ some u
      → Accounts inputs u v
      → Accounts (i ∷ inputs) w v
  unfolding loop_step
  loop_step-Account fits (joins n turns elapsed) inputs w u v e h =
      elim (Bool-cases (is_joining w.phase)) [
        | inl j ↦ join-Account n turns elapsed inputs w u v (ground (arith, e, j)) h
        | inr j ↦ absurd (ground (arith, e, j))
      ]
  loop_step-Account fits (aborts n change elapsed message) inputs w u v e h =
      elim (Bool-cases (is_joining w.phase)) [
        | inl j ↦ abort-Account n change elapsed message inputs w u v (ground (arith, e, j)) h
        | inr j ↦ absurd (ground (arith, e, j))
      ]
  loop_step-Account fits none_ready inputs w u v e h =
      Stays-Account none_ready inputs w u v (λ l x d. finds_none d)
        (after_none-Stays db clock rendering worker worker_id lease_seconds w.phase w u e) h
  loop_step-Account fits shuts_down inputs w u v e h =
      Stays-Account shuts_down inputs w u v (λ l x d. stops d)
        (after_shutdown-Stays db clock rendering worker worker_id lease_seconds w.phase w u e) h
  loop_step-Account fits proceeds inputs w u v e h = check-Account fits w.phase inputs w u v e h
  loop_step-Account fits sleeps inputs w u v e h =
      sleep-Account inputs w u v
        (after_idling-store db clock rendering worker worker_id lease_seconds w.phase w u e) h
