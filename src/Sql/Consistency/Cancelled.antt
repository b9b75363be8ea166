-- ===== src/Sql/Consistency/Cancelled.antt =====
-- The cancellation of a task keeps the tables consistent.
use steda.Prelude.{
  ℕ, ◌≤◌, ◌≡◌, ◌≢◌, refl, false, Option, none, some, inl, inr, ◌==◌, Bool-cases, arith, sym, subst,
  ap, ◌∙◌,
}
use steda.Types.{TaskState}
use steda.Sql.{TaskRow, RunRow, put, is_active, cancel_row, map_row}
use steda.Sql.Consistency.{
  put-cases, put-here, put-there, HasLease, IsOwned, IsRun, IsConsistent, same_row,
}

cancel_row-task_id : (t : ℕ) (run : RunRow) → (cancel_row t run).task_id ≡ run.task_id
cancel_row-task_id t run = ground arith

cancel_row-attempt : (t : ℕ) (run : RunRow) → (cancel_row t run).attempt ≡ run.attempt
cancel_row-attempt t run = ground arith

cancel_row-inactive :
    (t : ℕ) (run : RunRow) → run.task_id ≡ t → is_active (cancel_row t run).state ≡ false
cancel_row-inactive t run e = ground arith

cancel_row-HasLease : (t : ℕ) (run : RunRow) → HasLease run → HasLease (cancel_row t run)
cancel_row-HasLease t run h = elim (Bool-cases (run.task_id == t)) [
  | inl e ↦ elim (Bool-cases (is_active run.state)) [ inl a ↦ rw (e, a) tt | inr a ↦ rw (e, a) h ]
  | inr e ↦ rw e h
]

cancel_row-other : (t : ℕ) (run : RunRow) → run.task_id ≢ t → cancel_row t run ≡ run
cancel_row-other t run h = ground arith

map_row-cases :
    (f : RunRow → RunRow) (o : Option RunRow) (x : RunRow)
    → map_row f o ≡ some x
    → (y : RunRow) × (o ≡ some y) × (x ≡ f y)
map_row-cases f none x e = cc
map_row-cases f (some y) x e = (y, refl, cc)

module _ (tasks : ℕ → Option TaskRow) (runs : ℕ → Option RunRow) where
  -- `ended` are the runs before the cancellation: the last run of the task may have failed.
  pub record Cancels (ended : ℕ → Option RunRow) (t : ℕ) (next : RunRow) (task after : TaskRow)
      : Type 0 where
    pub task_found : tasks t ≡ some task
    pub others : (q : ℕ) → q ≢ task.last_attempt_run → ended q ≡ runs q
    pub ended_found : ended task.last_attempt_run ≡ some next
    pub own : next.task_id ≡ t
    pub attempt : next.attempt ≡ task.attempts
    pub leased : HasLease next
    pub state : after.state ≡ TaskState.cancelled
    pub last : after.last_attempt_run ≡ task.last_attempt_run
    pub attempts : after.attempts ≡ task.attempts
    pub budget : after.max_attempts ≡ task.max_attempts

  pub cancelled-Consistent :
      IsConsistent tasks runs
      → (ended : ℕ → Option RunRow) (t : ℕ) (next : RunRow) (task after : TaskRow)
      → Cancels ended t next task after
      → IsConsistent (put t after tasks) (λ q. map_row (cancel_row t) (ended q))
  cancelled-Consistent c ended t next task after a = record { owned = owned; latest = latest }
    where
      left : ℕ → Option RunRow
      left q = map_row (cancel_row t) (ended q)

      -- A run of the task, before its cancellation.
      counted :
          (q : ℕ) (y : RunRow)
          → ended q ≡ some y
          → y.task_id ≡ t
          → (y.attempt ≤ task.attempts) × HasLease y
      counted q y e i = elim (Bool-cases (q == task.last_attempt_run)) [
        | inl h ↦
            let k : q ≡ task.last_attempt_run = ground (arith, h) in
            let same : y ≡ next = same_row (subst (λ k. ended k ≡ some y) k e) a.ended_found in
            (
              omega (arith, ap (λ (x : RunRow). x.attempt) same, a.attempt),
              subst HasLease (sym same) a.leased,
            )
        | inr h ↦
            let there : q ≢ task.last_attempt_run = λ k. ground (arith, h, k) in
            let o = c.owned q y (sym (a.others q there) ∙ e) in
            let same : o.task ≡ task =
              same_row (subst (λ k. tasks k ≡ some o.task) i o.found) a.task_found in
            (omega (arith, o.counted, ap (λ (x : TaskRow). x.attempts) same), o.leased)
      ]

      cancelled-IsOwned :
          (q : ℕ) (y : RunRow)
          → ended q ≡ some y
          → y.task_id ≡ t
          → IsOwned (put t after tasks) left q (cancel_row t y)
      cancelled-IsOwned q y e i =
          let (few, leased) = counted q y e i in
          let inactive = cancel_row-inactive t y i in
          record {
            task = after;
            found =
                subst (λ k. put t after tasks k ≡ some after) (sym (cancel_row-task_id t y ∙ i))
                  (put-here t after tasks);
            counted = omega (arith, few, cancel_row-attempt t y, a.attempts);
            last = λ h. absurd (ground (arith, h, inactive));
            agrees = λ h. absurd (ground (arith, h, inactive));
            leased = cancel_row-HasLease t y leased;
          }

      other-IsOwned :
          (q : ℕ) (y : RunRow)
          → ended q ≡ some y
          → y.task_id ≢ t
          → IsOwned (put t after tasks) left q y
      other-IsOwned q y e i =
          let there : q ≢ task.last_attempt_run = λ k. i (
            ap (λ (x : RunRow). x.task_id)
              (same_row (subst (λ k. ended k ≡ some y) k e) a.ended_found)
            ∙ a.own) in
          let o = c.owned q y (sym (a.others q there) ∙ e) in
          record {
            task = o.task;
            found = put-there t after tasks y.task_id i ∙ o.found;
            counted = o.counted;
            last = o.last;
            agrees = o.agrees;
            leased = o.leased;
          }

      owned : (q : ℕ) (x : RunRow) → left q ≡ some x → IsOwned (put t after tasks) left q x
      owned q x e =
          let (y, found, same) = map_row-cases (cancel_row t) (ended q) x e in
          subst (λ (z : RunRow). IsOwned (put t after tasks) left q z) (sym same)
            (elim (Bool-cases (y.task_id == t)) [
              | inl h ↦ cancelled-IsOwned q y found (ground (arith, h))
              | inr h ↦
                  let i : y.task_id ≢ t = λ k. ground (arith, h, k) in
                  subst (λ (z : RunRow). IsOwned (put t after tasks) left q z)
                    (sym (cancel_row-other t y i)) (other-IsOwned q y found i)
            ])

      -- The run of a task, after the cancellation.
      left_found : (q : ℕ) (y : RunRow) → ended q ≡ some y → left q ≡ some (cancel_row t y)
      left_found q y e = ap (map_row (cancel_row t)) e

      latest :
          (u : ℕ) (y : TaskRow) → put t after tasks u ≡ some y → IsRun (put t after tasks) left u y
      latest u y e = elim (put-cases t after tasks u y e) [
        | inl (here, same) ↦
            let before = c.latest t task a.task_found in
            subst (λ (z : TaskRow). IsRun (put t after tasks) left u z) (sym same)
              (record {
                run = cancel_row t next;
                found =
                    subst (λ k. left k ≡ some (cancel_row t next)) (sym a.last)
                      (left_found task.last_attempt_run next a.ended_found);
                own = cancel_row-task_id t next ∙ a.own ∙ sym here;
                attempt = cancel_row-attempt t next ∙ a.attempt ∙ sym a.attempts;
                agrees = λ h. absurd (ground (arith, h, a.state));
                budget = omega (arith, before.budget, a.attempts, a.budget);
              })
        | inr (there, old) ↦
            let l = c.latest u y old in
            let other : l.run.task_id ≢ t = λ h. there (sym l.own ∙ h) in
            let not_last : y.last_attempt_run ≢ task.last_attempt_run = λ h. other (
              let before = c.latest t task a.task_found in
              ap (λ (x : RunRow). x.task_id)
                (same_row (subst (λ k. runs k ≡ some l.run) h l.found) before.found)
              ∙ before.own) in
            record {
              run = l.run;
              found =
                  left_found y.last_attempt_run l.run
                    (a.others y.last_attempt_run not_last ∙ l.found)
                  ∙ ap some (cancel_row-other t l.run other);
              own = l.own;
              attempt = l.attempt;
              agrees = l.agrees;
              budget = l.budget;
            }
      ]
