-- ===== src/Sql/Changes/Failures.antt =====
-- The failure of an attempt, the cancellation and the retry of a task, as changes of the tables.
use steda.Prelude.{
  ℕ, ◌+◌, ◌≡◌, refl, Bool, true, none, some, inl, inr, arith, Bool-cases, subst, sym, ap, ◌∙◌, max,
  leb, ltb,
}
use steda.Types.{TaskState}
use steda.Json.{Json}
use steda.Error.{ok, >>=-eq-ok}
use steda.Sql.{TaskRow, RunRow, Tables, put, tick, draw, is_due, set_run, set_task}
use steda.Sql.Attempts.{
  Server, AttemptContext, lock_running_attempt, cancel_task, fail_run, failed_run, after_failure,
  insert_retry, insert_run, new_run, retries, retry_at, next_state,
}
use steda.Sql.Consistency.{HasLease, put-here, put-there}
use steda.Sql.Changes.{Change, noted, extended, Consistent, Moves, fails, suspends, reopens}
use steda.Sql.Changes as Changes
use steda.Sql.Changes.Locks.{cancel_task-Change}
use steda.Sql.Changes.Runs.{
  Locks, lock_running_attempt-Locks, cancel_locked-Change, replaced-Change, instead-ok,
}

pub insert_run-ok :
    (server : Server) (n : ℕ) (run : RunRow) (s u : Tables)
    → insert_run server n run s ≡ ok u
    → (s.runs n ≡ none) × (u ≡ set_run n run s)
unfolding insert_run
insert_run-ok server n run s u e = (ground arith, ground arith)

module _ (server : Server) where
  next_state-Moves : (c : AttemptContext) → Moves TaskState.running (next_state server c)
  next_state-Moves c = elim (Bool-cases (ltb c.observed_at (retry_at server c))) [
    | inl later ↦ rw later suspends
    | inr now ↦ rw now Changes.retries
  ]

  new_run-HasLease :
      (t attempt at : ℕ) (c : AttemptContext)
      → HasLease (new_run server t attempt (next_state server c) at)
  new_run-HasLease t attempt at c = elim (Bool-cases (ltb c.observed_at (retry_at server c))) [
    | inl later ↦ rw later tt
    | inr now ↦ rw now tt
  ]

  -- A run that has failed, in the tables of its lock.
  abbrev pub with_failed : ℕ → Json → AttemptContext → Tables → Tables
  with_failed r reason c s = set_run r (failed_run server c.observed_at reason c.run) (tick s)

  insert_retry-Change :
      (r : ℕ) (reason : Json) (s v : Tables) (c : AttemptContext)
      → Locks server s r c
      → leb (c.run.attempt + 1) c.task.max_attempts ≡ true
      → insert_retry server c (with_failed r reason c s) ≡ ok (tt, v)
      → Change s v
  unfolding insert_retry
  insert_retry-Change r reason s v c l fits e =
      let failed = failed_run server c.observed_at reason c.run in
      let n = server.uuid s.generated in
      let new =
        new_run server c.run.task_id (c.run.attempt + 1) (next_state server c)
          (retry_at server c) in
      let (u, inserted, rest) =
        >>=-eq-ok (insert_run server n new (draw (with_failed r reason c s))) _ e in
      let (absent, written) =
        insert_run-ok server n new (draw (with_failed r reason c s)) u inserted in
      let after : TaskRow = record c.task {
        state = next_state server c;
        attempts = max c.task.attempts (c.run.attempt + 1);
        last_attempt_run = n;
      } in
      let done : v
          ≡ set_task c.run.task_id after (set_run n new (draw (with_failed r reason c s))) =
        ground (arith, rest, written) in
      extended (put r failed s.runs) r c.run failed n new c.task after
        (record {
          run_found = l.run_found;
          task_found = l.task_found;
          last = l.last;
          others = λ q h. put-there r failed s.runs q h;
          ended_found = put-here r failed s.runs;
          own = refl;
          attempt = refl;
          inactive = refl;
          leased = tt;
          absent = absent;
          new_own = refl;
          new_attempt = omega (arith, l.attempt);
          new_agrees = refl;
          new_leased = new_run-HasLease c.run.task_id (c.run.attempt + 1) (retry_at server c) c;
          new_last = refl;
          grows = omega arith;
          budget = ground (arith, l.budget, fits);
        })
        (subst (λ (a : TaskState). Moves a (next_state server c)) (sym l.task_running)
          (next_state-Moves c))
        (ap (λ (x : Tables). x.tasks) done) (ap (λ (x : Tables). x.runs) done)
        (ap (λ (x : Tables). x.checkpoints) done)

  -- The cancellation of a task whose last run has just failed.
  cancel_failed-Change :
      (r : ℕ) (reason : Json) (s v : Tables) (c : AttemptContext) (b : Bool)
      → Consistent s
      → Locks server s r c
      → cancel_task server c.run.task_id (with_failed r reason c s) ≡ ok (b, v)
      → Change s v
  cancel_failed-Change r reason s v c b k l e =
      let failed = failed_run server c.observed_at reason c.run in
      cancel_task-Change server s (with_failed r reason c s) v c.run.task_id failed c.task b k
        l.task_found refl refl (λ q h. put-there r failed s.runs q (λ i. h (i ∙ sym l.last)))
        (subst (λ i. put r failed s.runs i ≡ some failed) (sym l.last) (put-here r failed s.runs))
        refl l.attempt tt (ground (arith, l.task_running)) e

  after_failure-Change :
      (r : ℕ) (reason : Json) (s v : Tables) (c : AttemptContext)
      → Consistent s
      → Locks server s r c
      → after_failure server r c (with_failed r reason c s) ≡ ok (tt, v)
      → Change s v
  unfolding after_failure
  after_failure-Change r reason s v c k l e = elim (Bool-cases (retries server c)) [
    | inl again ↦ elim (Bool-cases (is_due c.task (retry_at server c))) [
      | inl due ↦
          let (d, cancelled) =
            instead-ok tt tt (cancel_task server c.run.task_id (with_failed r reason c s)) v
              (ground (arith, e, again, due)) in
          cancel_failed-Change r reason s v c d k l cancelled
      | inr due ↦
          insert_retry-Change r reason s v c l (ground (arith, again))
            (ground (arith, e, again, due))
    ]
    | inr again ↦
        replaced-Change server s v r c (failed_run server c.observed_at reason c.run)
          (record c.task {
            state = TaskState.failed;
            attempts = max c.task.attempts c.run.attempt;
            last_attempt_run = r;
          })
          l refl refl refl tt refl (omega arith) (omega arith) refl fails (ground (arith, e, again))
  ]

  pub fail_run-Change :
      (r : ℕ) (reason : Json) (expired : Bool) (s v : Tables)
      → Consistent s
      → fail_run server r reason expired s ≡ ok (tt, v)
      → Change s v
  unfolding fail_run
  fail_run-Change r reason expired s v k e =
      let ((c, u), locked, rest) = >>=-eq-ok (lock_running_attempt server r expired s) _ e in
      let (l, ticked) = lock_running_attempt-Locks server r expired s c u k locked in
      elim (Bool-cases (is_due c.task c.observed_at)) [
        | inl due ↦
            let (d, cancelled) =
              instead-ok tt tt (cancel_task server c.run.task_id u) v (ground (arith, rest, due)) in
            cancel_locked-Change server s r c d v k l (
              subst (λ (x : Tables). cancel_task server c.run.task_id x ≡ ok (d, v)) ticked
                cancelled)
        | inr due ↦ after_failure-Change r reason s v c k l (
            subst
              (λ (x : Tables).
                after_failure server r c
                  (set_run r (failed_run server c.observed_at reason c.run) x)
                ≡ ok (tt, v))
              ticked (ground (arith, rest, due)))
      ]
