-- ===== src/Sql/Consistency/Extended.antt =====
-- A new last run of a task keeps the tables consistent.
use steda.Prelude.{
  ℕ, ◌≤◌, ◌≡◌, ◌≢◌, true, false, Option, none, some, inl, inr, ◌==◌, Bool-cases, arith, sym, subst,
  ap, ◌∙◌,
}
use steda.Sql.{TaskRow, RunRow, put, is_active}
use steda.Sql.Consistency.{
  put-cases, put-here, put-there, HasLease, IsOwned, IsRun, IsConsistent, same_row,
}

module _ (tasks : ℕ → Option TaskRow) (runs : ℕ → Option RunRow) where
  -- The last run of a task ends, and a new run becomes its last. `ended` are the runs before the new
  -- one is inserted.
  pub record Extends (ended : ℕ → Option RunRow) (r : ℕ) (run next : RunRow) (n : ℕ) (new : RunRow)
      (task after : TaskRow) : Type 0 where
    pub run_found : runs r ≡ some run
    pub task_found : tasks run.task_id ≡ some task
    pub last : task.last_attempt_run ≡ r
    pub others : (q : ℕ) → q ≢ r → ended q ≡ runs q
    pub ended_found : ended r ≡ some next
    pub own : next.task_id ≡ run.task_id
    pub attempt : next.attempt ≡ run.attempt
    pub inactive : is_active next.state ≡ false
    pub leased : HasLease next
    pub absent : ended n ≡ none
    pub new_own : new.task_id ≡ run.task_id
    pub new_attempt : new.attempt ≡ after.attempts
    pub new_agrees : new.state ≡ after.state
    pub new_leased : HasLease new
    pub new_last : after.last_attempt_run ≡ n
    pub grows : task.attempts ≤ after.attempts
    pub budget : after.attempts ≤ after.max_attempts

  pub extended-Consistent :
      IsConsistent tasks runs
      → (ended : ℕ → Option RunRow) (r : ℕ) (run next : RunRow) (n : ℕ) (new : RunRow)
        (task after : TaskRow)
      → Extends ended r run next n new task after
      → IsConsistent (put run.task_id after tasks) (put n new ended)
  extended-Consistent c ended r run next n new task after a = record {
    owned = owned;
    latest = latest;
  }
    where
      before : IsRun tasks runs run.task_id task
      before = c.latest run.task_id task a.task_found

      same_run : before.run ≡ run
      same_run = same_row (subst (λ k. runs k ≡ some before.run) a.last before.found) a.run_found

      attempts : task.attempts ≡ run.attempt
      attempts = omega (arith, before.attempt, ap (λ (x : RunRow). x.attempt) same_run)

      after_found :
          (x : RunRow)
          → x.task_id ≡ run.task_id
          → put run.task_id after tasks x.task_id ≡ some after
      after_found x i =
          subst (λ k. put run.task_id after tasks k ≡ some after) (sym i)
            (put-here run.task_id after tasks)

      -- A run that was not the last.
      other-IsOwned :
          (q : ℕ) (x : RunRow)
          → q ≢ r
          → runs q ≡ some x
          → IsOwned (put run.task_id after tasks) (put n new ended) q x
      other-IsOwned q x there old =
          let o = c.owned q x old in
          elim (Bool-cases (x.task_id == run.task_id)) [
            | inl e ↦
                let i : x.task_id ≡ run.task_id = ground (arith, e) in
                let same : o.task ≡ task =
                  same_row (subst (λ k. tasks k ≡ some o.task) i o.found) a.task_found in
                let is_last : is_active x.state ≡ true → ⊥ = λ h.
                  there (sym (o.last h) ∙ ap (λ (y : TaskRow). y.last_attempt_run) same ∙ a.last) in
                record {
                  task = after;
                  found = after_found x i;
                  counted =
                      omega (arith, o.counted, ap (λ (y : TaskRow). y.attempts) same, a.grows);
                  last = λ h. absurd (is_last h);
                  agrees = λ h. absurd (is_last h);
                  leased = o.leased;
                }
            | inr e ↦ record {
              task = o.task;
              found =
                  put-there run.task_id after tasks x.task_id (λ h. ground (arith, e, h)) ∙ o.found;
              counted = o.counted;
              last = o.last;
              agrees = o.agrees;
              leased = o.leased;
            }
          ]

      ended-IsOwned :
          (q : ℕ) (x : RunRow)
          → ended q ≡ some x
          → IsOwned (put run.task_id after tasks) (put n new ended) q x
      ended-IsOwned q x e = elim (Bool-cases (q == r)) [
        | inl h ↦
            let i : q ≡ r = ground (arith, h) in
            let same : x ≡ next = same_row (subst (λ k. ended k ≡ some x) i e) a.ended_found in
            subst (λ (y : RunRow). IsOwned (put run.task_id after tasks) (put n new ended) q y)
              (sym same)
              (record {
                task = after;
                found = after_found next a.own;
                counted = omega (arith, attempts, a.attempt, a.grows);
                last = λ h. absurd (ground (arith, h, a.inactive));
                agrees = λ h. absurd (ground (arith, h, a.inactive));
                leased = a.leased;
              })
        | inr h ↦
            let there : q ≢ r = λ i. ground (arith, h, i) in
            other-IsOwned q x there (sym (a.others q there) ∙ e)
      ]

      owned :
          (q : ℕ) (x : RunRow)
          → put n new ended q ≡ some x
          → IsOwned (put run.task_id after tasks) (put n new ended) q x
      owned q x e = elim (put-cases n new ended q x e) [
        | inl (here, same) ↦
            subst (λ (y : RunRow). IsOwned (put run.task_id after tasks) (put n new ended) q y)
              (sym same)
              (record {
                task = after;
                found = after_found new a.new_own;
                counted = omega (arith, a.new_attempt);
                last = λ h. a.new_last ∙ sym here;
                agrees = λ h. sym a.new_agrees;
                leased = a.new_leased;
              })
        | inr (there, old) ↦ ended-IsOwned q x old
      ]

      latest :
          (t : ℕ) (y : TaskRow)
          → put run.task_id after tasks t ≡ some y
          → IsRun (put run.task_id after tasks) (put n new ended) t y
      latest t y e = elim (put-cases run.task_id after tasks t y e) [
        | inl (here, same) ↦
            subst (λ (z : TaskRow). IsRun (put run.task_id after tasks) (put n new ended) t z)
              (sym same)
              (record {
                run = new;
                found =
                    subst (λ k. put n new ended k ≡ some new) (sym a.new_last)
                      (put-here n new ended);
                own = a.new_own ∙ sym here;
                attempt = a.new_attempt;
                agrees = λ h. a.new_agrees;
                budget = a.budget;
              })
        | inr (there, old) ↦
            let l = c.latest t y old in
            let not_last : y.last_attempt_run ≢ r = λ h. there (
              sym l.own
              ∙ ap (λ (x : RunRow). x.task_id)
                  (same_row (subst (λ k. runs k ≡ some l.run) h l.found) a.run_found)) in
            let kept : ended y.last_attempt_run ≡ some l.run =
              a.others y.last_attempt_run not_last ∙ l.found in
            record {
              run = l.run;
              found =
                  put-there n new ended y.last_attempt_run (λ h. absurd (
                    let missing : ended y.last_attempt_run ≡ none =
                      subst (λ k. ended k ≡ none) (sym h) a.absent in
                    cc))
                  ∙ kept;
              own = l.own;
              attempt = l.attempt;
              agrees = l.agrees;
              budget = l.budget;
            }
      ]
