-- ===== src/Db/Rows.antt =====
-- The decoding of rows: which rows decode, and to what.
use steda.Prelude.{pos, ◌≡◌, refl, ◌↔◌, none, some, Option, List, [], ◌∷◌, arith}
use steda.Text.{Str, codes, str_eq}
use steda.Text.Equality.{eq_of_str_eq}
use steda.Identifiers.{TaskId}
use steda.Error.{ok}
use steda.Json.{Json, JsonObject}
use steda.Types.{TaskResultSnapshot, ClaimedTask}
use steda.World.{ClaimedRow, ResultRow}
use steda.Db.{
  RunSupervision, supervision_from_outcome, snapshot_from_state, snapshot_from_row,
  headers_from_column, claimed_tasks_from_rows, claimed_task_from_row,
}

-- The text of each outcome, as steda.supervise_run returns it.
abbrev pub outcome_text : RunSupervision → Str
outcome_text RunSupervision.running = codes "running"
outcome_text RunSupervision.completed = codes "completed"
outcome_text RunSupervision.failed = codes "failed"
outcome_text RunSupervision.cancelled = codes "cancelled"
outcome_text RunSupervision.suspended = codes "suspended"
outcome_text RunSupervision.lease_lost = codes "lease_lost"

-- A text is taken for an outcome exactly when it is that outcome's text.
pub supervision_from_outcome_iff :
    (text : Str) (outcome : RunSupervision)
    → (supervision_from_outcome text ≡ ok outcome) ↔ (text ≡ outcome_text outcome)
unfolding supervision_from_outcome
supervision_from_outcome_iff text outcome = (
  λ h. ground (
    arith,
    eq_of_str_eq text (codes "running"),
    eq_of_str_eq text (codes "completed"),
    eq_of_str_eq text (codes "failed"),
    eq_of_str_eq text (codes "cancelled"),
    eq_of_str_eq text (codes "suspended"),
    eq_of_str_eq text (codes "lease_lost"),
  ),
  λ h. rw h (back outcome),
)
  where
    back : (o : RunSupervision) → supervision_from_outcome (outcome_text o) ≡ ok o
    back RunSupervision.running = unfold str_eq in refl
    back RunSupervision.completed = unfold str_eq in refl
    back RunSupervision.failed = unfold str_eq in refl
    back RunSupervision.cancelled = unfold str_eq in refl
    back RunSupervision.suspended = unfold str_eq in refl
    back RunSupervision.lease_lost = unfold str_eq in refl

-- What a row must hold for its snapshot to be the given one.
abbrev pub Shows : ResultRow → TaskResultSnapshot → Type 0
Shows row TaskResultSnapshot.pending = row.state ≡ codes "pending"
Shows row TaskResultSnapshot.running = row.state ≡ codes "running"
Shows row TaskResultSnapshot.sleeping = row.state ≡ codes "sleeping"
Shows row (TaskResultSnapshot.completed result) =
    (row.state ≡ codes "completed") × (row.result ≡ some result)
Shows row (TaskResultSnapshot.failed failure) =
    (row.state ≡ codes "failed") × (row.failure_reason ≡ some failure)
Shows row TaskResultSnapshot.cancelled = row.state ≡ codes "cancelled"

snapshot_from_state-Shows :
    (task_id : TaskId) (row : ResultRow) (snapshot : TaskResultSnapshot)
    → snapshot_from_state task_id row ≡ ok snapshot
    → Shows row snapshot
unfolding snapshot_from_state
snapshot_from_state-Shows task_id row snapshot e = ground (
  arith,
  eq_of_str_eq row.state (codes "pending"),
  eq_of_str_eq row.state (codes "running"),
  eq_of_str_eq row.state (codes "sleeping"),
  eq_of_str_eq row.state (codes "completed"),
  eq_of_str_eq row.state (codes "failed"),
  eq_of_str_eq row.state (codes "cancelled"),
)

-- A row gives a snapshot only if it names the expected task, and the snapshot is the one that its
-- state shows, with the persisted result or failure.
pub snapshot_from_row-Shows :
    (task_name : Str) (task_id : TaskId) (row : ResultRow) (snapshot : TaskResultSnapshot)
    → snapshot_from_row task_name task_id (some row) ≡ ok (some snapshot)
    → (row.task_name ≡ task_name) × Shows row snapshot
unfolding snapshot_from_row
snapshot_from_row-Shows task_name task_id row snapshot e =
    let named = eq_of_str_eq row.task_name task_name in
    (ground (arith, named), snapshot_from_state-Shows task_id row snapshot (ground arith))

-- A column shows headers: an absent column and a JSON null show none, an object shows itself, and no
-- other value shows any.
abbrev pub HeadersShow : Option Json → Option JsonObject → Type 0
HeadersShow none headers = headers ≡ none
HeadersShow (some Json.null) headers = headers ≡ none
HeadersShow (some (Json.object m)) headers = headers ≡ some m
HeadersShow (some _) headers = ⊥

headers_from_column-HeadersShow :
    (column : Option Json) (headers : Option JsonObject)
    → headers_from_column column ≡ ok headers
    → HeadersShow column headers
unfolding headers_from_column
headers_from_column-HeadersShow none h e = ground arith
headers_from_column-HeadersShow (some Json.null) h e = ground arith
headers_from_column-HeadersShow (some (Json.boolean b)) h e = cc
headers_from_column-HeadersShow (some (Json.number n)) h e = cc
headers_from_column-HeadersShow (some (Json.string n)) h e = cc
headers_from_column-HeadersShow (some (Json.array js)) h e = cc
headers_from_column-HeadersShow (some (Json.object m)) h e = ground arith

-- The tasks that decode keep the rows' order and contents, and their attempts were not negative.
abbrev pub Decodes : List ClaimedRow → List ClaimedTask → Type 0
Decodes [] [] = Unit
Decodes (row ∷ rows) (task ∷ tasks) =
    (row.run_id ≡ task.run_id)
    × (row.task_id ≡ task.task_id)
    × (row.task_name ≡ task.task_name)
    × (row.params ≡ task.params)
    × (row.attempt ≡ pos task.attempt)
    × HeadersShow row.headers task.headers
    × Decodes rows tasks
Decodes _ _ = ⊥

claimed_task_from_row-headers :
    (row : ClaimedRow) (task : ClaimedTask)
    → claimed_task_from_row row ≡ ok task
    → headers_from_column row.headers ≡ ok task.headers
unfolding claimed_task_from_row
claimed_task_from_row-headers row task e = ground arith

-- If a batch of claimed rows decodes, it decodes row by row: none is dropped, added or reordered,
-- each keeps its identifiers, name and parameters, no attempt was negative, and the headers are the
-- object of the column, or none where the column is absent or a JSON null.
pub claimed_tasks_from_rows-Decodes :
    (rows : List ClaimedRow) (tasks : List ClaimedTask)
    → claimed_tasks_from_rows rows ≡ ok tasks
    → Decodes rows tasks
unfolding claimed_tasks_from_rows
claimed_tasks_from_rows-Decodes [] [] e = tt
claimed_tasks_from_rows-Decodes [] (t ∷ ts) e = cc
claimed_tasks_from_rows-Decodes (r ∷ rs) [] e = ground arith
claimed_tasks_from_rows-Decodes (r ∷ rs) (t ∷ ts) e =
    let rest = claimed_tasks_from_rows-Decodes rs ts (ground arith) in
    let shown =
      headers_from_column-HeadersShow r.headers t.headers
        (claimed_task_from_row-headers r t (ground arith)) in
    (ground arith, ground arith, ground arith, ground arith, ground arith, shown, rest)
