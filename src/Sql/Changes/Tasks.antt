-- ===== src/Sql/Changes/Tasks.antt =====
-- The cancellation and the retry of a task by its identifier, and supervision, as changes of the
-- tables.
use steda.Prelude.{
  ℕ, ◌+◌, ◌≡◌, refl, Bool, false, Option, none, some, inl, inr, arith, Bool-cases, subst, sym, ap,
  max,
}
use steda.Types.{TaskState}
use steda.Error.{ok, fail_if, >>=-eq-ok}
use steda.Sql.{TaskRow, Tables, put, tick, draw, is_active, is_due, set_run, set_task}
use steda.Sql.Attempts.{
  exception, failed_check, Raised, Server, cancel_task, insert_run, new_run, retry_task, reopen,
}
use steda.Sql.Consistency.{IsRun, same_row}
use steda.Sql.Changes.{Change, noted, extended, Consistent, Moves, reopens}
use steda.Sql.Changes.Locks.{cancel_task-Change}
use steda.Sql.Changes.Failures.{insert_run-ok}

module _ (server : Server) where
  pub cancel_any-Change :
      (t : ℕ) (s v : Tables) (b : Bool)
      → Consistent s
      → cancel_task server t s ≡ ok (b, v)
      → Change s v
  cancel_any-Change t s v b k e = go (s.tasks t) refl
    where
      of_task : (task : TaskRow) → s.tasks t ≡ some task → Change s v
      of_task task p = elim (Bool-cases (is_active task.state)) [
        | inl active ↦
            let before = k.latest t task p in
            cancel_task-Change server s s v t before.run task b k p refl refl (λ q h. refl)
              before.found before.own before.attempt
              (k.owned task.last_attempt_run before.run before.found).leased active e
        | inr ended ↦
            let same : v ≡ tick s = unfold cancel_task in ground (arith, e, p, ended) in
            noted (ap (λ (x : Tables). x.tasks) same) (ap (λ (x : Tables). x.runs) same)
              (ap (λ (x : Tables). x.checkpoints) same)
      ]

      go : (o : Option TaskRow) → s.tasks t ≡ o → Change s v
      go none p = absurd (unfold cancel_task in ground (arith, e, p))
      go (some task) p = of_task task p

  pub retry_task-Change :
      (t n : ℕ) (s v : Tables) → Consistent s → retry_task server t s ≡ ok (n, v) → Change s v
  unfolding retry_task
  retry_task-Change t n s v k e = go (s.tasks t) refl
    where
      reopened : (task : TaskRow) → s.tasks t ≡ some task → Change s v
      reopened task p =
          let at = server.clock s.readings in
          let before = k.latest t task p in
          let new = new_run server t (task.attempts + 1) TaskState.pending at in
          let chain : reopen server t task at (tick s) ≡ ok (n, v) = ground (arith, e, p) in
          let (a, failed, rest) = >>=-eq-ok (failed_check server task.state) _ chain in
          let (b, timely, last) =
            >>=-eq-ok {E = Raised} (fail_if (is_due task at) exception) _ rest in
          let (u, inserted, done) =
            >>=-eq-ok (insert_run server (server.uuid s.generated) new (draw (tick s))) _ last in
          let (absent, written) =
            insert_run-ok server (server.uuid s.generated) new (draw (tick s)) u inserted in
          let after : TaskRow = record task {
            state = TaskState.pending;
            attempts = task.attempts + 1;
            max_attempts = max task.max_attempts (task.attempts + 1);
            last_attempt_run = server.uuid s.generated;
            cancelled_at = none;
          } in
          let was : task.state ≡ TaskState.failed = ground (arith, failed) in
          let result : v
              ≡ set_task t after (set_run (server.uuid s.generated) new (draw (tick s))) =
            ground (arith, done, written) in
          let own = before.own in
          extended s.runs task.last_attempt_run before.run before.run (server.uuid s.generated) new
            task after
            (record {
              run_found = before.found;
              task_found = subst (λ i. s.tasks i ≡ some task) (sym own) p;
              last = refl;
              others = λ q h. refl;
              ended_found = before.found;
              own = refl;
              attempt = refl;
              inactive = inactive task p was before;
              leased = (k.owned task.last_attempt_run before.run before.found).leased;
              absent = absent;
              new_own = sym own;
              new_attempt = refl;
              new_agrees = refl;
              new_leased = tt;
              new_last = refl;
              grows = omega arith;
              budget = omega arith;
            })
            (subst (λ (a : TaskState). Moves a TaskState.pending) (sym was) reopens)
            (subst (λ i. v.tasks ≡ put i after s.tasks) (sym own)
              (ap (λ (x : Tables). x.tasks) result))
            (ap (λ (x : Tables). x.runs) result) (ap (λ (x : Tables). x.checkpoints) result)
        where
          inactive :
              (task : TaskRow)
              → s.tasks t ≡ some task
              → task.state ≡ TaskState.failed
              → (before : IsRun s.tasks s.runs t task) → is_active before.run.state ≡ false
          inactive task p was before = elim (Bool-cases (is_active before.run.state)) [
            | inr ended ↦ ended
            | inl active ↦
                let o = k.owned task.last_attempt_run before.run before.found in
                let same = same_row (subst (λ i. s.tasks i ≡ some o.task) before.own o.found) p in
                absurd
                  (ground (arith, active, was, o.agrees active, ap (λ (x : TaskRow). x.state) same))
          ]

      go : (o : Option TaskRow) → s.tasks t ≡ o → Change s v
      go none p = absurd (ground (arith, e, p))
      go (some task) p = reopened task p
