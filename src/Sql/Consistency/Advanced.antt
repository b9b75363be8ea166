-- ===== src/Sql/Consistency/Advanced.antt =====
-- New rows for the last run of a task and the task itself keep the tables consistent.
use steda.Prelude.{
  ◌≤◌, ℕ, ◌≡◌, ◌≢◌, Option, some, inl, inr, ◌==◌, Bool-cases, arith, max, sym, subst, ap, ◌∙◌,
}
use steda.Sql.{TaskRow, RunRow, put}
use steda.Sql.Consistency.{
  put-cases, put-here, put-there, HasLease, IsOwned, IsRun, IsConsistent, same_row,
}

module _ (tasks : ℕ → Option TaskRow) (runs : ℕ → Option RunRow) where
  -- The last run of a task and the task itself get new rows.
  pub record Advances (r : ℕ) (run next : RunRow) (task after : TaskRow) : Type 0 where
    pub run_found : runs r ≡ some run
    pub task_found : tasks run.task_id ≡ some task
    pub last : task.last_attempt_run ≡ r
    pub own : next.task_id ≡ run.task_id
    pub attempt : next.attempt ≡ run.attempt
    pub agrees : next.state ≡ after.state
    pub leased : HasLease next
    pub still_last : after.last_attempt_run ≡ r
    pub grows : task.attempts ≤ after.attempts
    pub attempts : after.attempts ≤ max task.attempts run.attempt
    pub budget : after.max_attempts ≡ task.max_attempts

  pub advanced-Consistent :
      IsConsistent tasks runs
      → (r : ℕ) (run next : RunRow) (task after : TaskRow) → Advances r run next task after
      → IsConsistent (put run.task_id after tasks) (put r next runs)
  advanced-Consistent c r run next task after a = record { owned = owned; latest = latest }
    where
      before : IsRun tasks runs run.task_id task
      before = c.latest run.task_id task a.task_found

      same_run : before.run ≡ run
      same_run =
          let e : runs r ≡ some before.run =
            subst (λ k. runs k ≡ some before.run) a.last before.found in
          let h = a.run_found in cc

      attempts : after.attempts ≡ run.attempt
      attempts =
          omega
            (arith, a.grows, a.attempts, before.attempt, ap (λ (x : RunRow). x.attempt) same_run)

      owned :
          (q : ℕ) (x : RunRow)
          → put r next runs q ≡ some x
          → IsOwned (put run.task_id after tasks) (put r next runs) q x
      owned q x e = elim (put-cases r next runs q x e) [
        | inl (here, new) ↦
            subst (λ (y : RunRow). IsOwned (put run.task_id after tasks) (put r next runs) q y)
              (sym new)
              (record {
                task = after;
                found =
                    subst (λ k. put run.task_id after tasks k ≡ some after) (sym a.own)
                      (put-here run.task_id after tasks);
                counted = omega (arith, attempts, a.attempt);
                last = λ h. a.still_last ∙ sym here;
                agrees = λ h. sym a.agrees;
                leased = a.leased;
              })
        | inr (there, old) ↦ others q x there old
      ]
        where
          others :
              (q : ℕ) (x : RunRow)
              → q ≢ r
              → runs q ≡ some x
              → IsOwned (put run.task_id after tasks) (put r next runs) q x
          others q x there old =
              let o = c.owned q x old in
              elim (Bool-cases (x.task_id == run.task_id)) [
                | inl e ↦
                    let i : x.task_id ≡ run.task_id = ground (arith, e) in
                    let same : o.task ≡ task =
                      same_row (subst (λ k. tasks k ≡ some o.task) i o.found) a.task_found in
                    record {
                      task = after;
                      found =
                          subst (λ k. put run.task_id after tasks k ≡ some after) (sym i)
                            (put-here run.task_id after tasks);
                      counted =
                          omega (arith, o.counted, ap (λ (y : TaskRow). y.attempts) same, a.grows);
                      last = λ h. absurd (
                          there (
                            sym (o.last h)
                            ∙ ap (λ (y : TaskRow). y.last_attempt_run) same
                            ∙ a.last));
                      agrees = λ h. absurd (
                          there (
                            sym (o.last h)
                            ∙ ap (λ (y : TaskRow). y.last_attempt_run) same
                            ∙ a.last));
                      leased = o.leased;
                    }
                | inr e ↦ record {
                  task = o.task;
                  found =
                      put-there run.task_id after tasks x.task_id (λ h. ground (arith, e, h))
                      ∙ o.found;
                  counted = o.counted;
                  last = o.last;
                  agrees = o.agrees;
                  leased = o.leased;
                }
              ]

      latest :
          (t : ℕ) (y : TaskRow)
          → put run.task_id after tasks t ≡ some y
          → IsRun (put run.task_id after tasks) (put r next runs) t y
      latest t y e = elim (put-cases run.task_id after tasks t y e) [
        | inl (here, new) ↦
            subst (λ (z : TaskRow). IsRun (put run.task_id after tasks) (put r next runs) t z)
              (sym new)
              (record {
                run = next;
                found =
                    subst (λ k. put r next runs k ≡ some next) (sym a.still_last)
                      (put-here r next runs);
                own = a.own ∙ sym here;
                attempt = omega (arith, attempts, a.attempt);
                agrees = λ h. a.agrees;
                budget = omega (
                  arith,
                  attempts,
                  before.budget,
                  before.attempt,
                  a.budget,
                  ap (λ (x : RunRow). x.attempt) same_run,
                );
              })
        | inr (there, old) ↦
            let l = c.latest t y old in
            record {
              run = l.run;
              found =
                  put-there r next runs y.last_attempt_run (λ h. there (
                    let e1 : runs r ≡ some l.run = subst (λ k. runs k ≡ some l.run) h l.found in
                    let e2 = a.run_found in
                    let e3 : l.run ≡ run = cc in sym l.own ∙ ap (λ (x : RunRow). x.task_id) e3))
                  ∙ l.found;
              own = l.own;
              attempt = l.attempt;
              agrees = l.agrees;
              budget = l.budget;
            }
      ]
