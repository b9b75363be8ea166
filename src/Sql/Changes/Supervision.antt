-- ===== src/Sql/Changes/Supervision.antt =====
-- Supervision and the reaping of an expired lease, as changes of the tables.
use steda.Prelude.{
  ℕ, ◌+◌, ◌*◌, ◌≡◌, refl, Bool, true, ◌||◌, ◌&&◌, Option, none, some, inl, inr, arith, not,
  Bool-cases, subst, sym, ap, ◌==◌, ◌∙◌, max, leb,
}
use steda.Types.{TaskState}
use steda.Text.{Str, codes}
use steda.Error.{Result, ok, fail_if, >>=-eq-ok}
use steda.Sql.{Tables, put, tick, is_due}
use steda.Sql.Attempts.{
  Raised, exception, Server, AttemptContext, lock_attempt_context, cancel_task, fail_run,
}
use steda.Sql.Supervision.{
  reap_expired_run, supervise_run, supervise_attempt, supervise_running, supervise_lease,
  persisted_outcome, renew, is_running, is_authoritative, has_lease, lease_expired, after_reaping,
  is_zero,
}
use steda.Sql.Consistency.{Leases}
use steda.Sql.Changes.{
  committed, begun, withdrawn, extended, Change, noted, advanced, Consistent, stays,
}
use steda.Sql.Changes.Locks.{IsLocked, lock_attempt_context-IsLocked}
use steda.Sql.Changes.Runs.{instead-ok}
use steda.Sql.Changes.Failures.{fail_run-Change}
use steda.Sql.Changes.Tasks.{cancel_any-Change}

-- A reading of the clock changes no table, so it comes before any change.
abbrev pub rebased : (s v : Tables) → Change (tick s) v → Change s v
rebased s v (noted e1 e2 e3) = noted e1 e2 e3
rebased s v (committed t name state absent e1 e2 e3) = committed t name state absent e1 e2 e3
rebased s v (begun t task n run a e1 e2 e3) =
    begun t task n run
      (record {
        task_absent = a.task_absent;
        run_absent = a.run_absent;
        own = a.own;
        attempt = a.attempt;
        agrees = a.agrees;
        last = a.last;
        leased = a.leased;
        budget = a.budget;
      })
      e1 e2 e3
rebased s v (advanced r run next task after a m e1 e2 e3) =
    advanced r run next task after
      (record {
        run_found = a.run_found;
        task_found = a.task_found;
        last = a.last;
        own = a.own;
        attempt = a.attempt;
        agrees = a.agrees;
        leased = a.leased;
        still_last = a.still_last;
        grows = a.grows;
        attempts = a.attempts;
        budget = a.budget;
      })
      m e1 e2 e3
rebased s v (extended ended r run next n new task after a m e1 e2 e3) =
    extended ended r run next n new task after a m e1 e2 e3
rebased s v (withdrawn ended t next task after a m e1 e2 e3) =
    withdrawn ended t next task after a m e1 e2 e3

renewed :
    (state : TaskState) (worker : Option Str) (o : Option ℕ) (expires next : ℕ)
    → state ≡ TaskState.running
    → o ≡ some expires
    → Leases state worker o
    → Leases state worker (some next)
renewed TaskState.running (some w) o expires next q h l = tt
renewed TaskState.running none o expires next q h l = l
renewed TaskState.pending w o expires next q h l = cc
renewed TaskState.sleeping w o expires next q h l = cc
renewed TaskState.completed w o expires next q h l = cc
renewed TaskState.failed w o expires next q h l = cc
renewed TaskState.cancelled w o expires next q h l = cc

-- Putting back what is there.
put_back {ℓ} : {A : Type ℓ} (k : ℕ) (a : A) (f : ℕ → Option A) → f k ≡ some a → f ≡ put k a f
unfolding put
put_back k a f e = λ i x. go x i
  where
    go : (x : ℕ) → f x ≡ put k a f x
    go x = elim (Bool-cases (x == k)) [
      | inl q ↦ let same : x ≡ k = ground (arith, q) in ap f same ∙ e ∙ sym (ground (arith, q))
      | inr q ↦ ground (arith, q)
    ]

module _ (server : Server) where
  pub reap_expired_run-Change :
      (r : ℕ) (s v : Tables) (b : Bool)
      → Consistent s
      → reap_expired_run server r s ≡ ok (b, v)
      → Change s v
  unfolding reap_expired_run
  reap_expired_run-Change r s v b k e =
      let ((c, u), locked, rest) = >>=-eq-ok (lock_attempt_context server r s) _ e in
      let l = lock_attempt_context-IsLocked server r s c u locked in
      elim (Bool-cases
        (not (is_running c.run.state) || has_lease c.run.claim_expires_at c.observed_at)) [
          | inl early ↦
              let same : v ≡ tick s = ground (arith, rest, early, l.after) in
              noted (ap (λ (x : Tables). x.tasks) same) (ap (λ (x : Tables). x.runs) same)
                (ap (λ (x : Tables). x.checkpoints) same)
          | inr late ↦ elim (Bool-cases (is_authoritative server r c)) [
            | inr other ↦ absurd (ground (arith, rest, late, other))
            | inl own ↦
                let reaped : Unit {0} × Tables → Result (Bool × Tables) Raised =
                  λ p. ok (true, p.1) in
                let ((done, w), failed, last) =
                  >>=-eq-ok (fail_run server r (lease_expired server c) true u) reaped
                    {result = (b, v)} (ground (arith, rest, late, own)) in
                let same : w ≡ v = ground (arith, last) in
                rebased s v (
                  fail_run-Change server r (lease_expired server c) true (tick s) v k (
                    subst
                      (λ (x : Tables).
                        fail_run server r (lease_expired server c) true x ≡ ok (tt, v))
                      l.after (failed ∙ ap (λ (x : Tables). ok (tt, x)) same)))
          ]
        ]

  -- Renewal extends the lease of the run that is locked.
  renew-Change :
      (r : ℕ) (seconds : Option ℕ) (expires : ℕ) (s : Tables) (c : AttemptContext)
      → Consistent s
      → IsLocked server r s c (tick s)
      → c.run.state ≡ TaskState.running
      → is_authoritative server r c ≡ true
      → c.run.claim_expires_at ≡ some expires
      → Change s (renew server r seconds expires c (tick s))
  renew-Change r none expires s c k l running own e = noted refl refl refl
  renew-Change r (some seconds) expires s c k l running own e =
      elim (Bool-cases (leb expires (c.observed_at + seconds * 500_000))) [
        | inr early ↦ rw early (noted refl refl refl)
        | inl late ↦
            let last : c.task.last_attempt_run ≡ r = ground (arith, own) in
            let agrees : c.run.state ≡ c.task.state = ground (arith, own, running) in
            let leased = (k.owned r c.run l.run_found).leased in
            rw late (
              advanced r c.run
                (record c.run {
                  claim_expires_at = some (max expires (c.observed_at + seconds * 1_000_000));
                })
                c.task c.task
                (record {
                  run_found = l.run_found;
                  task_found = l.task_found;
                  last = last;
                  own = refl;
                  attempt = refl;
                  agrees = agrees;
                  leased =
                      renewed c.run.state c.run.claimed_by c.run.claim_expires_at expires
                        (max expires (c.observed_at + seconds * 1_000_000)) running e leased;
                  still_last = last;
                  grows = omega arith;
                  attempts = omega arith;
                  budget = refl;
                })
                stays (put_back c.run.task_id c.task s.tasks l.task_found) refl refl)
      ]

  supervise_running-Change :
      (r : ℕ) (seconds : Option ℕ) (s v : Tables) (c : AttemptContext) (x : Str)
      → Consistent s
      → IsLocked server r s c (tick s)
      → c.run.state ≡ TaskState.running
      → is_authoritative server r c ≡ true
      → supervise_running server r seconds c (tick s) ≡ ok (x, v)
      → Change s v
  supervise_running-Change r seconds s v c x k l running own e =
      elim (Bool-cases (is_due c.task c.observed_at)) [
        | inl due ↦
            let (d, cancelled) =
              instead-ok (codes "cancelled") x (cancel_task server c.run.task_id (tick s)) v
                (ground (arith, e, due)) in
            rebased s v (cancel_any-Change server c.run.task_id (tick s) v d k cancelled)
        | inr timely ↦ leases c.run.claim_expires_at refl (ground (arith, e, timely))
      ]
    where
      leases :
          (o : Option ℕ)
          → c.run.claim_expires_at ≡ o
          → supervise_lease server r seconds o c (tick s) ≡ ok (x, v)
          → Change s v
      leases none q h = cc
      leases (some expires) q h = elim (Bool-cases (leb expires c.observed_at)) [
        | inr live ↦
            let same : renew server r seconds expires c (tick s) ≡ v = ground (arith, h, live) in
            subst (Change s) same (renew-Change r seconds expires s c k l running own q)
        | inl late ↦
            let reported : Bool × Tables → Result (Str × Tables) Raised =
              λ p. ok (after_reaping server (p.1.tasks c.run.task_id), p.1) in
            let ((b, w), reaped, last) =
              >>=-eq-ok (reap_expired_run server r (tick s)) reported {result = (x, v)}
                (ground (arith, h, late)) in
            let same : w ≡ v = ground (arith, last) in
            subst (Change s) same (rebased s w (reap_expired_run-Change r (tick s) w b k reaped))
      ]

  pub supervise_run-Change :
      (r : ℕ) (seconds : Option ℕ) (s v : Tables) (x : Str)
      → Consistent s
      → supervise_run server r seconds s ≡ ok (x, v)
      → Change s v
  unfolding supervise_run
  supervise_run-Change r seconds s v x k e =
      let (a, positive, chain) =
        >>=-eq-ok {E = Raised} (fail_if (is_zero server seconds) exception) _ e in
      let ((c, u), locked, rest) = >>=-eq-ok (lock_attempt_context server r s) _ chain in
      let l = lock_attempt_context-IsLocked server r s c u locked in
      let at : supervise_attempt server r seconds (persisted_outcome c) c (tick s) ≡ ok (x, v) =
        subst
          (λ (w : Tables). supervise_attempt server r seconds (persisted_outcome c) c w ≡ ok (x, v))
          l.after rest in
      go c (subst (IsLocked server r s c) l.after l) (persisted_outcome c) at
    where
      go :
          (c : AttemptContext)
          → IsLocked server r s c (tick s)
          → (o : Option Str) → supervise_attempt server r seconds o c (tick s) ≡ ok (x, v)
          → Change s v
      go c l (some outcome) h =
          let same : v ≡ tick s = ground (arith, h) in
          noted (ap (λ (x : Tables). x.tasks) same) (ap (λ (x : Tables). x.runs) same)
            (ap (λ (x : Tables). x.checkpoints) same)
      go c l none h = elim (Bool-cases (is_running c.run.state && is_authoritative server r c)) [
        | inr other ↦ absurd (ground (arith, h, other))
        | inl own ↦
            supervise_running-Change r seconds s v c x k l (ground (arith, own))
              (ground (arith, own)) (ground (arith, h, own))
      ]
