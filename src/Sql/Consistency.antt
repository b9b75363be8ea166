-- ===== src/Sql/Consistency.antt =====
-- What holds of a queue's tables at all times: the constraints that create_queue_tables declares, and
-- how the state of a task follows that of its last run.
pub mod Advanced
pub mod Extended
pub mod Cancelled
pub mod Spawned
use steda.Prelude.{
  ℕ, ◌≤◌, ◌≡◌, ◌≢◌, true, Option, none, some, ◌⊎◌, inl, inr, ◌==◌, Bool-cases, arith, max, sym,
  subst, ap, ◌∙◌,
}
use steda.Text.{Str}
use steda.Types.{TaskState, running}
use steda.Sql.{TaskRow, RunRow, put, is_active}

pub put-cases {ℓ} :
    {A : Type ℓ} (k : ℕ) (a : A) (f : ℕ → Option A) (x : ℕ) (b : A)
    → put k a f x ≡ some b
    → ((x ≡ k) × (b ≡ a)) ⊎ ((x ≢ k) × (f x ≡ some b))
unfolding put
put-cases k a f x b e = elim (Bool-cases (x == k)) [
  | inl q ↦ inl (ground (arith, q), ground (arith, q, e))
  | inr q ↦ inr (λ h. ground (arith, q, h), ground (arith, q, e))
]

pub put-here {ℓ} : {A : Type ℓ} (k : ℕ) (a : A) (f : ℕ → Option A) → put k a f k ≡ some a
unfolding put
put-here k a f = ground arith

pub put-there {ℓ} :
    {A : Type ℓ} (k : ℕ) (a : A) (f : ℕ → Option A) (x : ℕ) → x ≢ k → put k a f x ≡ f x
unfolding put
put-there k a f x h = elim (Bool-cases (x == k)) [
  | inl q ↦ absurd (h (ground (arith, q)))
  | inr q ↦ ground (arith, q)
]

-- A running run has an owner and a lease, and no other run has either.
abbrev pub Leases : TaskState → Option Str → Option ℕ → Type 0
Leases running (some worker) (some expires) = Unit
Leases running _ _ = ⊥
Leases _ none none = Unit
Leases _ _ _ = ⊥

abbrev pub HasLease : RunRow → Type 0
HasLease run = Leases run.state run.claimed_by run.claim_expires_at

module _ (tasks : ℕ → Option TaskRow) (runs : ℕ → Option RunRow) where
  -- A run belongs to a task, and only the last run of a task is active, in the task's state.
  pub record IsOwned (r : ℕ) (run : RunRow) : Type 0 where
    pub task : TaskRow
    pub found : tasks run.task_id ≡ some task
    pub counted : run.attempt ≤ task.attempts
    pub last : is_active run.state ≡ true → task.last_attempt_run ≡ r
    pub agrees : is_active run.state ≡ true → task.state ≡ run.state
    pub leased : HasLease run

  -- The last run of a task is its own, its attempt is the task's, within its budget, and is active if
  -- the task is.
  pub record IsRun (t : ℕ) (task : TaskRow) : Type 0 where
    pub run : RunRow
    pub found : runs task.last_attempt_run ≡ some run
    pub own : run.task_id ≡ t
    pub attempt : run.attempt ≡ task.attempts
    pub agrees : is_active task.state ≡ true → run.state ≡ task.state
    pub budget : task.attempts ≤ task.max_attempts

  pub record IsConsistent : Type 0 where
    pub owned : (r : ℕ) (run : RunRow) → runs r ≡ some run → IsOwned r run
    pub latest : (t : ℕ) (task : TaskRow) → tasks t ≡ some task → IsRun t task

pub same_row {ℓ} : {A : Type ℓ} {o : Option A} {a b : A} → o ≡ some a → o ≡ some b → a ≡ b
same_row p q = cc
