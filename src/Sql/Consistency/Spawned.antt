-- ===== src/Sql/Consistency/Spawned.antt =====
-- A new task with its first run keeps the tables consistent.
use steda.Prelude.{ℕ, ◌≤◌, ◌≡◌, Option, none, some, inl, inr, arith, sym, subst, ◌∙◌}
use steda.Sql.{TaskRow, RunRow, put}
use steda.Sql.Consistency.{put-cases, put-here, put-there, HasLease, IsOwned, IsRun, IsConsistent}

module _ (tasks : ℕ → Option TaskRow) (runs : ℕ → Option RunRow) where
  pub record Begins (t : ℕ) (task : TaskRow) (n : ℕ) (run : RunRow) : Type 0 where
    pub task_absent : tasks t ≡ none
    pub run_absent : runs n ≡ none
    pub own : run.task_id ≡ t
    pub attempt : run.attempt ≡ task.attempts
    pub agrees : task.state ≡ run.state
    pub last : task.last_attempt_run ≡ n
    pub leased : HasLease run
    pub budget : task.attempts ≤ task.max_attempts

  pub spawned-Consistent :
      IsConsistent tasks runs
      → (t : ℕ) (task : TaskRow) (n : ℕ) (run : RunRow) → Begins t task n run
      → IsConsistent (put t task tasks) (put n run runs)
  spawned-Consistent c t task n run a = record { owned = owned; latest = latest }
    where
      missing_task : (b : TaskRow) → tasks t ≡ some b → ⊥
      missing_task b e = let h = a.task_absent in cc

      missing_run : (b : RunRow) → runs n ≡ some b → ⊥
      missing_run b e = let h = a.run_absent in cc

      owned :
          (q : ℕ) (x : RunRow)
          → put n run runs q ≡ some x
          → IsOwned (put t task tasks) (put n run runs) q x
      owned q x e = elim (put-cases n run runs q x e) [
        | inl (here, same) ↦
            subst (λ (y : RunRow). IsOwned (put t task tasks) (put n run runs) q y) (sym same)
              (record {
                task = task;
                found =
                    subst (λ k. put t task tasks k ≡ some task) (sym a.own) (put-here t task tasks);
                counted = omega (arith, a.attempt);
                last = λ h. a.last ∙ sym here;
                agrees = λ h. a.agrees;
                leased = a.leased;
              })
        | inr (there, old) ↦
            let o = c.owned q x old in
            record {
              task = o.task;
              found =
                  put-there t task tasks x.task_id
                    (λ h. missing_task o.task (subst (λ k. tasks k ≡ some o.task) h o.found))
                  ∙ o.found;
              counted = o.counted;
              last = o.last;
              agrees = o.agrees;
              leased = o.leased;
            }
      ]

      latest :
          (u : ℕ) (y : TaskRow)
          → put t task tasks u ≡ some y
          → IsRun (put t task tasks) (put n run runs) u y
      latest u y e = elim (put-cases t task tasks u y e) [
        | inl (here, same) ↦
            subst (λ (z : TaskRow). IsRun (put t task tasks) (put n run runs) u z) (sym same)
              (record {
                run = run;
                found = subst (λ k. put n run runs k ≡ some run) (sym a.last) (put-here n run runs);
                own = a.own ∙ sym here;
                attempt = a.attempt;
                agrees = λ h. sym a.agrees;
                budget = a.budget;
              })
        | inr (there, old) ↦
            let l = c.latest u y old in
            record {
              run = l.run;
              found =
                  put-there n run runs y.last_attempt_run
                    (λ h. missing_run l.run (subst (λ k. runs k ≡ some l.run) h l.found))
                  ∙ l.found;
              own = l.own;
              attempt = l.attempt;
              agrees = l.agrees;
              budget = l.budget;
            }
      ]
