-- ===== src/Worker/Loop/History.antt =====
-- src/worker.rs: what a worker does, told by the calls that its inputs make it do.
use mathlib.Core.List.{Permᴰ}
use steda.Prelude.{ℕ, ◌≡◌, refl, Option, none, some, List, [], ◌∷◌, ◌++◌, ◌∙◌, arith, ap}
use steda.Text.{Str}
use steda.Error.{Error, Result, ok, err}
use steda.Types.{ClaimedTask}
use steda.World.{Database, Clock}
use steda.Db.{claim_tasks}
use steda.Metrics.Accounting.{End}
use steda.Executor.{Rendering, Turn, execute_task}
use steda.Worker.{Worker, default_poll_interval, registered_task_names}
use steda.Worker.Loop.{
  after_none, after_join, after_idling, after_shutdown, Phase, sleeps, shuts_down, none_ready,
  aborts, joins, proceeds, WorkerLoop, Input,
}
use steda.Worker.Loop.{joining, waiting, checking, idling, draining, returned}
use steda.Worker.Bounds.{executing-after_join}

module _ {S : Type 0} (db : Database S) (clock : Clock S) (rendering : Rendering)
    (worker : Worker S) (worker_id : Str) (lease_seconds : ℕ) where
  -- What the inputs of a worker make it do, from the outside state at the start to that at the end:
  -- the tasks of the claims, in their order, and those of the attempts, in the order of their ends.
  pub data Does : List (Input S) → S → S → List ClaimedTask → List ClaimedTask → Type 0 where
    ends : {s : S} → Does [] s s [] []
    claims :
        {inputs : List (Input S)} {s u t : S} {later executed : List ClaimedTask} (capacity : ℕ)
        (tasks : List ClaimedTask)
        → claim_tasks db worker.queue.name worker_id lease_seconds capacity
            (registered_task_names worker.registry)
            s
          ≡ (ok tasks, u)
        → Does inputs u t later executed
        → Does (proceeds ∷ inputs) s t (tasks ++ later) executed
    fails_to_claim :
        {inputs : List (Input S)} {s u t : S} {later executed : List ClaimedTask} (capacity : ℕ)
        (e : Error)
        → claim_tasks db worker.queue.name worker_id lease_seconds capacity
            (registered_task_names worker.registry)
            s
          ≡ (err e, u)
        → Does inputs u t later executed
        → Does (proceeds ∷ inputs) s t later executed
    -- The attempt of this task runs, with its own run, under the schedule of the input.
    executes :
        {inputs : List (Input S)} {s u t : S} {later executed : List ClaimedTask} (n : ℕ)
        (turns : List Turn) (elapsed : ℕ) (task : ClaimedTask) (r : Result (Unit {0}) Error)
        (end : End)
        → execute_task db rendering worker.queue.execution worker.queue.name worker.registry task
            lease_seconds turns s
          ≡ some (r, end, u)
        → Does inputs u t later executed
        → Does (joins n turns elapsed ∷ inputs) s t later (task ∷ executed)
    -- The attempt of this task panics.
    panics :
        {inputs : List (Input S)} {s t : S} {later executed : List ClaimedTask} (n : ℕ)
        (change : S → S) (elapsed : ℕ) (message : Str) (task : ClaimedTask)
        → Does inputs (change s) t later executed
        → Does (aborts n change elapsed message ∷ inputs) s t later (task ∷ executed)
    finds_none :
        {inputs : List (Input S)} {s t : S} {later executed : List ClaimedTask}
        → Does inputs s t later executed
        → Does (none_ready ∷ inputs) s t later executed
    stops :
        {inputs : List (Input S)} {s t : S} {later executed : List ClaimedTask}
        → Does inputs s t later executed
        → Does (shuts_down ∷ inputs) s t later executed
    rests :
        {inputs : List (Input S)} {s t : S} {later executed : List ClaimedTask}
        → Does inputs (clock.sleep default_poll_interval s) t later executed
        → Does (sleeps ∷ inputs) s t later executed

  -- What a part of a worker's life accounts for: with the attempts in flight at its start and at its
  -- end, the tasks claimed are those executed.
  unfoldable pub Account : List (Input S) → WorkerLoop S → WorkerLoop S → Type 0
  Account inputs w v =
      (later : List ClaimedTask) × (executed : List ClaimedTask) × Does inputs w.store v.store later
        executed
      × Permᴰ (w.executing ++ later) (executed ++ v.executing)

  after_join-store :
      (p : Phase) (o : Option Error) (w : WorkerLoop S) → (after_join p o w).store ≡ w.store
  after_join-store draining o w = refl
  after_join-store joining (some e) w = refl
  after_join-store joining none w = refl
  after_join-store waiting (some e) w = refl
  after_join-store waiting none w = refl
  after_join-store checking (some e) w = refl
  after_join-store checking none w = refl
  after_join-store idling (some e) w = refl
  after_join-store idling none w = refl
  after_join-store (returned r) (some e) w = refl
  after_join-store (returned r) none w = refl

  pub after_join-left :
      (p : Phase) (o : Option Error) (w u : WorkerLoop S)
      → u ≡ after_join p o w
      → (u.store ≡ w.store) × (u.executing ≡ w.executing)
  after_join-left p o w u same = (
    ap (λ (y : WorkerLoop S). y.store) same ∙ after_join-store p o w,
    ap (λ (y : WorkerLoop S). y.executing) same ∙ executing-after_join p o w,
  )

  abbrev pub Stays : WorkerLoop S → WorkerLoop S → Type 0
  Stays w u = (u.store ≡ w.store) × (u.executing ≡ w.executing)

  pub after_none-Stays :
      (p : Phase) (w u : WorkerLoop S)
      → after_none db clock rendering worker worker_id lease_seconds p w ≡ some u
      → Stays w u
  after_none-Stays joining w u e = (ground arith, ground arith)
  after_none-Stays waiting w u e = (ground arith, ground arith)
  after_none-Stays checking w u e = cc
  after_none-Stays idling w u e = cc
  after_none-Stays draining w u e = (ground arith, ground arith)
  after_none-Stays (returned r) w u e = cc

  pub after_shutdown-Stays :
      (p : Phase) (w u : WorkerLoop S)
      → after_shutdown db clock rendering worker worker_id lease_seconds p w ≡ some u
      → Stays w u
  after_shutdown-Stays joining w u e = cc
  after_shutdown-Stays waiting w u e = (ground arith, ground arith)
  after_shutdown-Stays checking w u e = (ground arith, ground arith)
  after_shutdown-Stays idling w u e = (ground arith, ground arith)
  after_shutdown-Stays draining w u e = cc
  after_shutdown-Stays (returned r) w u e = cc

  pub after_idling-store :
      (p : Phase) (w u : WorkerLoop S)
      → after_idling db clock rendering worker worker_id lease_seconds p w ≡ some u
      → (u.store ≡ clock.sleep default_poll_interval w.store) × (u.executing ≡ w.executing)
  after_idling-store joining w u e = cc
  after_idling-store waiting w u e = cc
  after_idling-store checking w u e = cc
  after_idling-store idling w u e = (ground arith, ground arith)
  after_idling-store draining w u e = cc
  after_idling-store (returned r) w u e = cc
