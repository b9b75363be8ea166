-- ===== src/Sql/Changes/Batches.antt =====
-- Chains of changes: the commit of a checkpoint, and the batches of a claim.
use steda.Prelude.{
  ℕ, zero, suc, ◌+◌, ◌*◌, ◌≡◌, refl, Bool, true, false, Option, none, some, List, [], ◌∷◌, inl, inr,
  arith, not, Bool-cases, subst, ap, ◌==◌, is_empty,
}
use steda.Types.{TaskState}
use steda.Text.{Str, codes, trim}
use steda.Json.{Json}
use steda.Error.{Result, ok, fail_if, ◌>>=◌, >>=-eq-ok}
use steda.Sql.{TaskRow, RunRow, Tables, tick, is_due}
use steda.Sql.Attempts.{Raised, exception, sqlstate, Server, lock_running_attempt, cancel_task}
use steda.Sql.Checkpoints.{set_task_checkpoint_state, commit_checkpoint, insert_checkpoint}
use steda.Sql.Supervision.{reap_expired_run}
use steda.Sql.Claims.{
  has_blank, Scans, Claimed, is_waiting, is_claimable, claimed_run, claimed_task, claim_found,
  claim_row, claim_each, cancel_each, reap_each, claim_tasks, is_expired_task, is_expired_run,
}
use steda.Sql.Changes.{
  Change, noted, committed, advanced, Consistent, Change-Consistent, Moves, starts, resumes,
}
use steda.Sql.Changes.Runs.{lock_running_attempt-Locks}
use steda.Sql.Changes.Tasks.{cancel_any-Change}
use steda.Sql.Changes.Supervision.{reap_expired_run-Change}

pub data Chain : Tables → Tables → Type 0 where
  done : {s : Tables} → Chain s s
  then : {s u v : Tables} → Change s u → Chain u v → Chain s v

pub one : {s v : Tables} → Change s v → Chain s v
one c = then c done

pub join : {s u v : Tables} → Chain s u → Chain u v → Chain s v
join done d = d
join (then c e) d = then c (join e d)

pub Chain-Consistent : {s v : Tables} → Chain s v → Consistent s → Consistent v
Chain-Consistent done k = k
Chain-Consistent (then {s} {u} c d) k = Chain-Consistent d (Change-Consistent s u c k)

waiting-Moves : (a : TaskState) → is_waiting a ≡ true → Moves a TaskState.running
waiting-Moves TaskState.pending h = starts
waiting-Moves TaskState.sleeping h = resumes
waiting-Moves TaskState.running h = cc
waiting-Moves TaskState.completed h = cc
waiting-Moves TaskState.failed h = cc
waiting-Moves TaskState.cancelled h = cc

claim_found-Chain :
    (worker_id : Str) (names : List Str) (at expires r : ℕ) (run : RunRow) (o : Option TaskRow)
    (s : Tables)
    → s.runs r ≡ some run
    → s.tasks run.task_id ≡ o
    → Chain s (claim_found worker_id names at expires r run o s).1
claim_found-Chain worker_id names at expires r run none s p q = done
claim_found-Chain worker_id names at expires r run (some task) s p q =
    elim (Bool-cases (is_claimable names at r run task)) [
      | inr other ↦ rw other done
      | inl eligible ↦
          let last : task.last_attempt_run ≡ r = unfold is_claimable in ground (arith, eligible) in
          let waits : is_waiting task.state ≡ true =
            unfold is_claimable in ground (arith, eligible) in
          rw eligible (
            one (
              advanced r run (claimed_run worker_id at expires run) task
                (claimed_task r at run task)
                (record {
                  run_found = p;
                  task_found = q;
                  last = last;
                  own = refl;
                  attempt = refl;
                  agrees = refl;
                  leased = tt;
                  still_last = refl;
                  grows = omega arith;
                  attempts = omega arith;
                  budget = refl;
                })
                (waiting-Moves task.state waits) refl refl refl))
    ]

claim_row-Chain :
    (worker_id : Str) (names : List Str) (at expires r : ℕ) (o : Option RunRow) (s : Tables)
    → s.runs r ≡ o
    → Chain s (claim_row worker_id names at expires r o s).1
claim_row-Chain worker_id names at expires r none s p = done
claim_row-Chain worker_id names at expires r (some run) s p =
    claim_found-Chain worker_id names at expires r run (s.tasks run.task_id) s p refl

claim_each-Chain :
    (worker_id : Str) (names : List Str) (at expires n : ℕ) (rows : List ℕ) (s : Tables)
    → Chain s (claim_each worker_id names at expires n rows s).1
unfolding claim_each
claim_each-Chain worker_id names at expires zero rows s = done
claim_each-Chain worker_id names at expires (suc n) [] s = done
claim_each-Chain worker_id names at expires (suc n) (r ∷ rows) s =
    go (claim_row worker_id names at expires r (s.runs r) s)
      (claim_row-Chain worker_id names at expires r (s.runs r) s refl)
      (λ m u. claim_each-Chain worker_id names at expires m rows u)
  where
    left : Option Claimed × Tables → Tables
    left p =
        let result : List Claimed × Tables = elim p.0 [
          | none ↦ claim_each worker_id names at expires (suc n) rows p.1
          | some claimed ↦
              let rest = claim_each worker_id names at expires n rows p.1 in
              (claimed ∷ rest.0, rest.1)
        ] in
        result.1

    go :
        (p : Option Claimed × Tables)
        → Chain s p.1
        → ((m : ℕ) (u : Tables) → Chain u (claim_each worker_id names at expires m rows u).1)
        → Chain s (left p)
    go (none, u) c next = join c (next (suc n) u)
    go (some claimed, u) c next = join c (next n u)

module _ (server : Server) where
  pub set_task_checkpoint_state-Change :
      (t : ℕ) (name : Str) (state : Json) (r : ℕ) (s v : Tables) (x : Json × Bool)
      → Consistent s
      → set_task_checkpoint_state server t name state r s ≡ ok (x, v)
      → Change s v
  unfolding set_task_checkpoint_state
  set_task_checkpoint_state-Change t name state r s v x k e =
      let ((c, u), locked, rest) = >>=-eq-ok (lock_running_attempt server r false s) _ e in
      let (l, ticked) = lock_running_attempt-Locks server r false s c u k locked in
      let (a, own, more) =
        >>=-eq-ok {E = Raised} (fail_if (not (c.run.task_id == t)) exception) _ rest in
      let (b, timely, last) =
        >>=-eq-ok {E = Raised} (fail_if (is_due c.task c.observed_at) (sqlstate (codes "ST001"))) _
          more in
      go (s.checkpoints t name) refl (
        subst
          (λ (w : Tables).
            ◌≡◌ {A = Result ((Json × Bool) × Tables) Raised}
              (ok (commit_checkpoint t name state (w.checkpoints t name) w)) (ok (x, v)))
          ticked last)
    where
      go :
          (o : Option Json)
          → s.checkpoints t name ≡ o
          → ◌≡◌ {A = Result ((Json × Bool) × Tables) Raised}
              (ok (commit_checkpoint t name state o (tick s)))
              (ok (x, v))
          → Change s v
      go none q h =
          let same : v ≡ insert_checkpoint t name state (tick s) = ground (arith, h) in
          committed t name state q (ap (λ (x : Tables). x.tasks) same)
            (ap (λ (x : Tables). x.runs) same) (ap (λ (x : Tables). x.checkpoints) same)
      go (some old) q h =
          let same : v ≡ tick s = ground (arith, h) in
          noted (ap (λ (x : Tables). x.tasks) same) (ap (λ (x : Tables). x.runs) same)
            (ap (λ (x : Tables). x.checkpoints) same)

  cancel_each-Chain :
      (at n : ℕ) (rows : List ℕ) (s v : Tables)
      → Consistent s
      → cancel_each server at n rows s ≡ ok (tt, v)
      → Chain s v
  unfolding cancel_each
  cancel_each-Chain at zero rows s v k e =
      let same : s ≡ v = ground (arith, e) in subst (Chain s) same done
  cancel_each-Chain at (suc n) [] s v k e =
      let same : s ≡ v = ground (arith, e) in subst (Chain s) same done
  cancel_each-Chain at (suc n) (t ∷ rows) s v k e =
      go (is_expired_task at s.runs (s.tasks t)) e (λ u. cancel_each-Chain at n rows u v)
        (cancel_each-Chain at (suc n) rows s v k)
    where
      go :
          (b : Bool)
          → elim b [
            | true ↦ cancel_task server t s >>= λ p. cancel_each server at n rows p.1
            | false ↦ cancel_each server at (suc n) rows s
          ]
            ≡ ok (tt, v)
          → ((u : Tables) → Consistent u → cancel_each server at n rows u ≡ ok (tt, v) → Chain u v)
          → (cancel_each server at (suc n) rows s ≡ ok (tt, v) → Chain s v)
          → Chain s v
      go true h next skip =
          let ((b, u), cancelled, rest) = >>=-eq-ok (cancel_task server t s) _ h in
          let c = cancel_any-Change server t s u b k cancelled in
          then c (next u (Change-Consistent s u c k) rest)
      go false h next skip = skip h

  reap_each-Chain :
      (at n : ℕ) (rows : List ℕ) (s v : Tables)
      → Consistent s
      → reap_each server at n rows s ≡ ok (tt, v)
      → Chain s v
  unfolding reap_each
  reap_each-Chain at zero rows s v k e =
      let same : s ≡ v = ground (arith, e) in subst (Chain s) same done
  reap_each-Chain at (suc n) [] s v k e =
      let same : s ≡ v = ground (arith, e) in subst (Chain s) same done
  reap_each-Chain at (suc n) (r ∷ rows) s v k e =
      go (is_expired_run at (s.runs r)) e (λ u. reap_each-Chain at n rows u v)
        (reap_each-Chain at (suc n) rows s v k)
    where
      go :
          (b : Bool)
          → elim b [
            | true ↦ reap_expired_run server r s >>= λ p. reap_each server at n rows p.1
            | false ↦ reap_each server at (suc n) rows s
          ]
            ≡ ok (tt, v)
          → ((u : Tables) → Consistent u → reap_each server at n rows u ≡ ok (tt, v) → Chain u v)
          → (reap_each server at (suc n) rows s ≡ ok (tt, v) → Chain s v)
          → Chain s v
      go true h next skip =
          let ((b, u), reaped, rest) = >>=-eq-ok (reap_expired_run server r s) _ h in
          let c = reap_expired_run-Change server r s u b k reaped in
          then c (next u (Change-Consistent s u c k) rest)
      go false h next skip = skip h

  pub claim_tasks-Chain :
      (scans : Scans) (w : Str) (lease quantity : ℕ) (names : List Str) (s v : Tables)
      (x : List Claimed)
      → Consistent s
      → claim_tasks server scans w lease quantity names s ≡ ok (x, v)
      → Chain s v
  unfolding claim_tasks
  claim_tasks-Chain scans w lease quantity names s v x k e =
      let (a, e1, f1) = >>=-eq-ok {E = Raised} (fail_if (is_empty (trim w)) exception) _ e in
      let (b, e2, f2) = >>=-eq-ok {E = Raised} (fail_if (lease == 0) exception) _ f1 in
      let (c, e3, f3) = >>=-eq-ok {E = Raised} (fail_if (quantity == 0) exception) _ f2 in
      let (d, e4, f4) = >>=-eq-ok {E = Raised} (fail_if (is_empty names) exception) _ f3 in
      let (d2, e5, g4) = >>=-eq-ok {E = Raised} (fail_if (has_blank names) exception) _ f4 in
      let s2 = tick (tick s) in
      let ((g, p), cancelled, f5) =
        >>=-eq-ok
          (cancel_each server (server.clock (s.readings + 1)) quantity scans.expired_tasks s2) _
          g4 in
      let ((h, q), reaped, last) =
        >>=-eq-ok (reap_each server (server.clock p.readings) quantity scans.expired_runs (tick p))
          _ f5 in
      let first =
        cancel_each-Chain (server.clock (s.readings + 1)) quantity scans.expired_tasks s2 p k
          cancelled in
      let second =
        reap_each-Chain (server.clock p.readings) quantity scans.expired_runs (tick p) q
          (Chain-Consistent first k) reaped in
      let at = server.clock q.readings in
      let claimed =
        claim_each-Chain w names at (at + lease * 1_000_000) quantity scans.runnable (tick q) in
      let same : (claim_each w names at (at + lease * 1_000_000) quantity scans.runnable (tick q)).1
          ≡ v =
        ground (arith, last) in
      then (noted refl refl refl) (
        join first (
          then (noted refl refl refl)
            (join second (then (noted refl refl refl) (subst (Chain (tick q)) same claimed)))))
