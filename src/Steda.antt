-- ===== src/Steda.antt =====
-- src/steda.rs: the root handle. The pool is the database; what is left of the handle is the shared
-- execution service. A Tower layer is a function on services.
use steda.Prelude.{ℤ, List, [], ◌∷◌}
use steda.Text.{Str}
use steda.Error.{Error, Result, ok, err}
use steda.Error as Errors
use steda.Types.{QueueCleanup}
use steda.Names.{validate_task_name}
use steda.Task.{TaskRef}
use steda.World.{M, ◌>>=◌, lift, call, Database}
use steda.Executor.{ExecutionRequest, Activity, base_service}
use steda.Handle.{TaskHandle}
use steda.Queue.{Queue, queue_from_parts, cleanup_count}

abbrev pub Service : Type 0 → Type 0
Service S = ExecutionRequest S → Activity S

abbrev pub Layer : Type 0 → Type 0
Layer S = Service S → Service S

pub record Steda (S : Type 0) : Type 0 where
  pub execution : Service S

-- The layers that wait to be applied, as one.
pub record StedaBuilder (S : Type 0) : Type 0 where
  pub layers : Layer S

module _ {S : Type 0} where
  -- `Steda::builder`, with `Identity`.
  abbrev pub builder : StedaBuilder S
  builder = record { layers = λ service. service }

  -- `StedaBuilder::layer`: the new layer is around those that are there, as `Stack` applies them.
  unfoldable pub layer : Layer S → StedaBuilder S → StedaBuilder S
  layer outer b = record { layers = λ service. outer (b.layers service) }

  unfoldable pub build : StedaBuilder S → Steda S
  build b = record { execution = b.layers base_service }

  unfoldable pub from_pool : Steda S
  unfolding build
  from_pool = build builder

  unfoldable pub queue : Steda S → Str → Result (Queue S) Error
  unfolding queue_from_parts
  queue steda name = queue_from_parts name steda.execution

  -- `Steda::task`: a handle for a reference, on the queue that it names.
  unfoldable pub task : Steda S → TaskRef → Result TaskHandle Error
  unfolding queue
  task steda r = Errors.◌>>=◌ (validate_task_name r.task_name) λ valid.
      Errors.◌>>=◌ (queue steda r.queue_name) λ q. ok (record { queue = q.name; task_ref = r })

-- `collect` of the decoded rows: the first error, or all in order.
unfoldable pub cleanups_from_rows : List (Str × ℤ) → Result (List QueueCleanup) Error
cleanups_from_rows [] = ok []
cleanups_from_rows ((name, deleted) ∷ rows) = Errors.◌>>=◌ (cleanup_count deleted) λ count.
    Errors.◌>>=◌ (cleanups_from_rows rows)
      λ rest. ok (record { queue_name = name; tasks_deleted = count } ∷ rest)

module _ {S : Type 0} (db : Database S) where
  unfoldable pub queues : M S (List Str)
  queues = call db.list_queues

  unfoldable pub cleanup_all : M S (List QueueCleanup)
  cleanup_all = do rows ← call db.cleanup_all_queues; lift (cleanups_from_rows rows)
