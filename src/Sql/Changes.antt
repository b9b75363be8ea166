-- ===== src/Sql/Changes.antt =====
-- The changes of a queue's tables, and the life of a task.
pub mod Locks
pub mod Runs
pub mod Failures
pub mod Tasks
pub mod Supervision
pub mod Batches
pub mod Spawns
use steda.Prelude.{none, ℕ, ◌≡◌, Option, subst, sym}
use steda.Types.{TaskState, pending, running, sleeping, completed, failed, cancelled}
use steda.Sql.{TaskRow, RunRow, Tables, put, cancel_row, map_row}
use steda.Sql.Consistency.{IsConsistent}
use steda.Sql.Checkpoints.{insert_checkpoint}
use steda.Json.{Json}
use steda.Text.{Str}
use steda.Sql.Consistency.Spawned.{Begins, spawned-Consistent}
use steda.Sql.Consistency.Advanced.{Advances, advanced-Consistent}
use steda.Sql.Consistency.Extended.{Extends, extended-Consistent}
use steda.Sql.Consistency.Cancelled.{Cancels, cancelled-Consistent}

-- The moves in the life of a task.
pub data Moves : TaskState → TaskState → Type 0 where
  starts : Moves pending running
  resumes : Moves sleeping running
  completes : Moves running completed
  suspends : Moves running sleeping
  fails : Moves running failed
  retries : Moves running pending
  reopens : Moves failed pending
  cancels_pending : Moves pending cancelled
  cancels_running : Moves running cancelled
  cancels_sleeping : Moves sleeping cancelled
  stays : {a : TaskState} → Moves a a

abbrev pub Consistent : Tables → Type 0
Consistent s = IsConsistent s.tasks s.runs

-- The state of a task changes from that of one row to that of another.
pub data Change (s v : Tables) : Type 0 where
  noted : v.tasks ≡ s.tasks → v.runs ≡ s.runs → v.checkpoints ≡ s.checkpoints → Change s v
  committed :
      (t : ℕ) (name : Str) (state : Json)
      → s.checkpoints t name ≡ none
      → v.tasks ≡ s.tasks
      → v.runs ≡ s.runs
      → v.checkpoints ≡ (insert_checkpoint t name state s).checkpoints
      → Change s v
  begun :
      (t : ℕ) (task : TaskRow) (n : ℕ) (run : RunRow)
      → Begins s.tasks s.runs t task n run
      → v.tasks ≡ put t task s.tasks
      → v.runs ≡ put n run s.runs
      → v.checkpoints ≡ s.checkpoints
      → Change s v
  advanced :
      (r : ℕ) (run next : RunRow) (task after : TaskRow)
      → Advances s.tasks s.runs r run next task after
      → Moves task.state after.state
      → v.tasks ≡ put run.task_id after s.tasks
      → v.runs ≡ put r next s.runs
      → v.checkpoints ≡ s.checkpoints
      → Change s v
  extended :
      (ended : ℕ → Option RunRow) (r : ℕ) (run next : RunRow) (n : ℕ) (new : RunRow)
      (task after : TaskRow)
      → Extends s.tasks s.runs ended r run next n new task after
      → Moves task.state after.state
      → v.tasks ≡ put run.task_id after s.tasks
      → v.runs ≡ put n new ended
      → v.checkpoints ≡ s.checkpoints
      → Change s v
  withdrawn :
      (ended : ℕ → Option RunRow) (t : ℕ) (next : RunRow) (task after : TaskRow)
      → Cancels s.tasks s.runs ended t next task after
      → Moves task.state after.state
      → v.tasks ≡ put t after s.tasks
      → v.runs ≡ (λ q. map_row (cancel_row t) (ended q))
      → v.checkpoints ≡ s.checkpoints
      → Change s v

move_tables :
    (v : Tables) {tasks : ℕ → Option TaskRow} {runs : ℕ → Option RunRow}
    → v.tasks ≡ tasks
    → v.runs ≡ runs
    → IsConsistent tasks runs
    → Consistent v
move_tables v {tasks} {runs} e1 e2 h =
    subst (λ (x : ℕ → Option TaskRow). IsConsistent x v.runs) (sym e1)
      (subst (λ (x : ℕ → Option RunRow). IsConsistent tasks x) (sym e2) h)

pub Change-Consistent : (s v : Tables) → Change s v → Consistent s → Consistent v
Change-Consistent s v (noted e1 e2 e3) c = move_tables v e1 e2 c
Change-Consistent s v (committed t name state absent e1 e2 e3) c = move_tables v e1 e2 c
Change-Consistent s v (begun t task n run a e1 e2 e3) c =
    move_tables v e1 e2 (spawned-Consistent s.tasks s.runs c t task n run a)
Change-Consistent s v (advanced r run next task after a m e1 e2 e3) c =
    move_tables v e1 e2 (advanced-Consistent s.tasks s.runs c r run next task after a)
Change-Consistent s v (extended ended r run next n new task after a m e1 e2 e3) c =
    move_tables v e1 e2 (extended-Consistent s.tasks s.runs c ended r run next n new task after a)
Change-Consistent s v (withdrawn ended t next task after a m e1 e2 e3) c =
    move_tables v e1 e2 (cancelled-Consistent s.tasks s.runs c ended t next task after a)
