-- ===== src/Sql/Claims/Batch.antt =====
-- What one claim returns.
use steda.Prelude.{
  ℕ, zero, suc, ◌+◌, ◌*◌, ◌≤◌, ◌≡◌, refl, true, Option, none, some, List, [], ◌∷◌, length, inl, inr,
  arith, All, Bool-cases, subst, sym, ap, ◌==◌, ◌∙◌, is_empty,
}
use steda.Types.{TaskState}
use steda.Text.{Str, trim}
use steda.Error.{ok, fail_if, >>=-eq-ok}
use steda.Db.Claims.{supports}
use steda.Sql.{TaskRow, RunRow, Tables, tick}
use steda.Sql.Attempts.{Raised, exception, Server}
use steda.Sql.Claims.{
  has_blank, Scans, Claimed, is_waiting, is_claimable, claimed_run, claim_found, claim_row,
  claim_each, cancel_each, reap_each, claim_tasks,
}
use steda.Sql.Consistency.{put-here, put-there}

-- A claimed row is of a supported task, and its run is this worker's.
pub record IsClaimed (worker_id : Str) (names : List Str) (expires : ℕ) (v : Tables) (x : Claimed)
    : Type 0 where
  pub supported : supports names x.task_name ≡ true
  pub run : RunRow
  pub found : v.runs x.run_id ≡ some run
  pub running : run.state ≡ TaskState.running
  pub owner : run.claimed_by ≡ some worker_id
  pub lease : run.claim_expires_at ≡ some expires

-- Running rows stay as they are.
abbrev pub Stays : Tables → Tables → Type 0
Stays s v =
    (q : ℕ) (x : RunRow) → s.runs q ≡ some x → x.state ≡ TaskState.running → v.runs q ≡ some x

moved_IsClaimed :
    (worker_id : Str) (names : List Str) (expires : ℕ) (u v : Tables) (x : Claimed)
    → Stays u v
    → IsClaimed worker_id names expires u x
    → IsClaimed worker_id names expires v x
moved_IsClaimed worker_id names expires u v x keep c = record {
  supported = c.supported;
  run = c.run;
  found = keep x.run_id c.run c.found c.running;
  running = c.running;
  owner = c.owner;
  lease = c.lease;
}

abbrev OfRow : Str → List Str → ℕ → Tables → Option Claimed × Tables → Type 0
OfRow worker_id names expires s (none, v) = Stays s v
OfRow worker_id names expires s (some x, v) = Stays s v × IsClaimed worker_id names expires v x

row_claimed :
    (worker_id : Str) (names : List Str) (at expires r : ℕ) (o : Option RunRow) (s : Tables)
    → s.runs r ≡ o
    → OfRow worker_id names expires s (claim_row worker_id names at expires r o s)
row_claimed worker_id names at expires r none s p = λ q x e h. e
row_claimed worker_id names at expires r (some run) s p = of_task (s.tasks run.task_id)
  where
    of_task :
        (o : Option TaskRow)
        → OfRow worker_id names expires s (claim_found worker_id names at expires r run o s)
    of_task none = λ q x e h. e
    of_task (some task) = elim (Bool-cases (is_claimable names at r run task)) [
      | inr other ↦ rw other (λ q x e h. e)
      | inl eligible ↦
          let waits : is_waiting run.state ≡ true =
            unfold is_claimable in ground (arith, eligible) in
          let named : supports names task.name ≡ true =
            unfold is_claimable in ground (arith, eligible) in
          rw eligible (
            (
              λ q x e h.
                  put-there r (claimed_run worker_id at expires run) s.runs q (λ i.
                    let same : some x ≡ some run = sym e ∙ ap s.runs i ∙ p in
                    ground (arith, waits, h, same))
                  ∙ e,
              record {
                supported = named;
                run = claimed_run worker_id at expires run;
                found = put-here r (claimed_run worker_id at expires run) s.runs;
                running = refl;
                owner = refl;
                lease = refl;
              },
            ))
    ]

-- The rows of a batch, in the tables after it.
pub record IsBatch (worker_id : Str) (names : List Str) (expires n : ℕ) (s : Tables)
    (p : List Claimed × Tables) : Type 0 where
  pub few : length p.0 ≤ n
  pub claimed : All (IsClaimed worker_id names expires p.1) p.0
  pub stays : Stays s p.1

pub claim_each-IsBatch :
    (worker_id : Str) (names : List Str) (at expires n : ℕ) (rows : List ℕ) (s : Tables)
    → IsBatch worker_id names expires n s (claim_each worker_id names at expires n rows s)
unfolding claim_each
claim_each-IsBatch worker_id names at expires zero rows s = record {
  few = omega arith;
  claimed = tt;
  stays = λ q x e h. e;
}
claim_each-IsBatch worker_id names at expires (suc n) [] s = record {
  few = omega arith;
  claimed = tt;
  stays = λ q x e h. e;
}
claim_each-IsBatch worker_id names at expires (suc n) (r ∷ rows) s =
    go (claim_row worker_id names at expires r (s.runs r) s)
      (row_claimed worker_id names at expires r (s.runs r) s refl)
      (λ m u. claim_each-IsBatch worker_id names at expires m rows u)
  where
    left : Option Claimed × Tables → List Claimed × Tables
    left p = elim p.0 [
      | none ↦ claim_each worker_id names at expires (suc n) rows p.1
      | some claimed ↦
          let rest = claim_each worker_id names at expires n rows p.1 in (claimed ∷ rest.0, rest.1)
    ]

    go :
        (p : Option Claimed × Tables)
        → OfRow worker_id names expires s p
        → ((m : ℕ) (u : Tables)
            → IsBatch worker_id names expires m u (claim_each worker_id names at expires m rows u))
        → IsBatch worker_id names expires (suc n) s (left p)
    go (none, u) keep next =
        let b = next (suc n) u in
        record { few = b.few; claimed = b.claimed; stays = λ q x e h. b.stays q x (keep q x e h) h }
    go (some c, u) (keep, own) next =
        let b = next n u in
        let rest = claim_each worker_id names at expires n rows u in
        record {
          few = omega (arith, b.few);
          claimed = (moved_IsClaimed worker_id names expires u rest.1 c b.stays own, b.claimed);
          stays = λ q x e h. b.stays q x (keep q x e h) h;
        }

-- A claim returns at most as many rows as it is asked for, each of a task that it names, and after
-- it the run of each is running, with the worker for its owner and one end of all their leases.
pub claim_tasks-IsBatch :
    (server : Server) (scans : Scans) (worker_id : Str) (lease_seconds quantity : ℕ)
    (names : List Str) (s v : Tables) (rows : List Claimed)
    → claim_tasks server scans worker_id lease_seconds quantity names s ≡ ok (rows, v)
    → (length rows ≤ quantity) × ((expires : ℕ) × All (IsClaimed worker_id names expires v) rows)
unfolding claim_tasks
claim_tasks-IsBatch server scans worker_id lease_seconds quantity names s v rows e =
    let (a, e1, f1) = >>=-eq-ok {E = Raised} (fail_if (is_empty (trim worker_id)) exception) _ e in
    let (b, e2, f2) = >>=-eq-ok {E = Raised} (fail_if (lease_seconds == 0) exception) _ f1 in
    let (c, e3, f3) = >>=-eq-ok {E = Raised} (fail_if (quantity == 0) exception) _ f2 in
    let (d, e4, f4) = >>=-eq-ok {E = Raised} (fail_if (is_empty names) exception) _ f3 in
    let (d2, e5, g4) = >>=-eq-ok {E = Raised} (fail_if (has_blank names) exception) _ f4 in
    let ((g, p), cancelled, f5) =
      >>=-eq-ok
        (cancel_each server (server.clock (s.readings + 1)) quantity scans.expired_tasks
          (tick (tick s)))
        _ g4 in
    let ((h, q), reaped, last) =
      >>=-eq-ok (reap_each server (server.clock p.readings) quantity scans.expired_runs (tick p)) _
        f5 in
    let at = server.clock q.readings in
    let expires = at + lease_seconds * 1_000_000 in
    let b = claim_each-IsBatch worker_id names at expires quantity scans.runnable (tick q) in
    let same : claim_each worker_id names at expires quantity scans.runnable (tick q) ≡ (rows, v) =
      ground (arith, last) in
    let batch =
      subst (λ (z : List Claimed × Tables). IsBatch worker_id names expires quantity (tick q) z)
        same b in
    (batch.few, (expires, batch.claimed))
