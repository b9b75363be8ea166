-- ===== src/Sql/History/Lives.antt =====
-- The life of a task: the state machine that a call follows, and the states that no call leaves.
use steda.Prelude.{
  ◌==◌, false, true, Bool-cases, Bool, ℕ, ◌≡◌, inl, inr, refl, Option, some, List, arith, sym,
  subst, ap, ◌∙◌,
}
use steda.Types.{TaskState}
use steda.Sql.{TaskRow, Tables, put}
use steda.Sql.Attempts.{Server}
use steda.Sql.Calls.{Call, perform, perform_all}
use steda.Sql.Consistency.{IsConsistent, same_row, put-here, put-there}
use steda.Sql.Changes.{
  Change, noted, committed, begun, advanced, extended, withdrawn, Moves, stays, starts, resumes,
  completes, suspends, fails, retries, reopens, cancels_pending, cancels_running, cancels_sleeping,
}
use steda.Sql.Changes.Batches.{Chain, done, then}
use steda.Sql.History.{is_claim, perform-Change, perform_all-Chain}

-- A completed task and a cancelled one have no other moves.
abbrev pub is_final : TaskState → Bool
is_final TaskState.completed = true
is_final TaskState.cancelled = true
is_final _ = false

Moves-final : {a b : TaskState} → Moves a b → is_final a ≡ true → b ≡ a
Moves-final stays h = refl
Moves-final starts h = cc
Moves-final resumes h = cc
Moves-final completes h = cc
Moves-final suspends h = cc
Moves-final fails h = cc
Moves-final retries h = cc
Moves-final reopens h = cc
Moves-final cancels_pending h = cc
Moves-final cancels_running h = cc
Moves-final cancels_sleeping h = cc

-- The task's row, after a change of one task's row.
put-Moves :
    (tasks next : ℕ → Option TaskRow) (k t : ℕ) (old after task : TaskRow)
    → tasks k ≡ some old
    → Moves old.state after.state
    → next ≡ put k after tasks
    → tasks t ≡ some task
    → (last : TaskRow) × (next t ≡ some last) × Moves task.state last.state
put-Moves tasks next k t old after task found m e p = elim (Bool-cases (t == k)) [
  | inl q ↦
      let same : t ≡ k = ground (arith, q) in
      let row : old ≡ task = same_row (subst (λ i. tasks i ≡ some old) (sym same) found) p in
      (
        after,
        ap (λ (f : ℕ → Option TaskRow). f t) e
            ∙ subst (λ i. put k after tasks i ≡ some after) (sym same) (put-here k after tasks),
        subst (λ (x : TaskRow). Moves x.state after.state) row m,
      )
  | inr q ↦ (
    task,
    ap (λ (f : ℕ → Option TaskRow). f t) e
        ∙ put-there k after tasks t (λ h. ground (arith, q, h))
        ∙ p,
    stays,
  )
]

Change-Moves :
    (s v : Tables) (t : ℕ) (task : TaskRow)
    → Change s v
    → s.tasks t ≡ some task
    → (last : TaskRow) × (v.tasks t ≡ some last) × Moves task.state last.state
Change-Moves s v t task (noted e1 e2 e3) p =
    (task, ap (λ (f : ℕ → Option TaskRow). f t) e1 ∙ p, stays)
Change-Moves s v t task (committed u name state absent e1 e2 e3) p =
    (task, ap (λ (f : ℕ → Option TaskRow). f t) e1 ∙ p, stays)
Change-Moves s v t task (begun u new n run a e1 e2 e3) p = (
  task,
  ap (λ (f : ℕ → Option TaskRow). f t) e1
      ∙ put-there u new s.tasks t (λ h.
        let absent = a.task_absent in
        let found : s.tasks u ≡ some task = subst (λ i. s.tasks i ≡ some task) h p in cc)
      ∙ p,
  stays,
)
Change-Moves s v t task (advanced r run next old after a m e1 e2 e3) p =
    put-Moves s.tasks v.tasks run.task_id t old after task a.task_found m e1 p
Change-Moves s v t task (extended ended r run next n new old after a m e1 e2 e3) p =
    put-Moves s.tasks v.tasks run.task_id t old after task a.task_found m e1 p
Change-Moves s v t task (withdrawn ended u next old after a m e1 e2 e3) p =
    put-Moves s.tasks v.tasks u t old after task a.task_found m e1 p

Chain-final :
    (t : ℕ) {s v : Tables} (task : TaskRow)
    → Chain s v
    → is_final task.state ≡ true
    → s.tasks t ≡ some task
    → (last : TaskRow) × (v.tasks t ≡ some last) × (last.state ≡ task.state)
Chain-final t task done f p = (task, p, refl)
Chain-final t task (then {s} {u} {v} c d) f p =
    let (next, q, m) = Change-Moves s u t task c p in
    let same : next.state ≡ task.state = Moves-final m f in
    let (last, found, kept) = Chain-final t next d (ap is_final same ∙ f) q in
    (last, found, kept ∙ same)

-- The tables refine a state machine: a call that is not a claim, made on consistent tables, leaves a
-- task where it is or takes it along one edge of the machine, from pending or sleeping to running,
-- from running to completed, sleeping, failed or pending, from failed to pending, or from pending,
-- running or sleeping to cancelled. The calls are those of Sql.Calls, none of which deletes a task.
pub perform-Moves :
    (server : Server) (call : Call) (s : Tables)
    → is_claim call ≡ false
    → IsConsistent s.tasks s.runs
    → (t : ℕ) (task : TaskRow) → s.tasks t ≡ some task
    → (last : TaskRow) × ((perform server call s).tasks t ≡ some last) × Moves task.state last.state
perform-Moves server call s single k t task p =
    Change-Moves s (perform server call s) t task (perform-Change server call s single k) p

-- A task that was completed or cancelled is in the same state after any calls of Sql.Calls on
-- consistent tables, claims, retries and cancellations of it among them.
pub perform_all-final :
    (server : Server) (calls : List Call) (s : Tables)
    → IsConsistent s.tasks s.runs
    → (t : ℕ) (task : TaskRow) → s.tasks t ≡ some task
    → is_final task.state ≡ true
    → (last : TaskRow) × ((perform_all server calls s).tasks t ≡ some last)
      × (last.state ≡ task.state)
perform_all-final server calls s k t task p f =
    Chain-final t task (perform_all-Chain server calls s k) f p
