-- ===== src/Sql/Supervision.antt =====
-- sql/steda.sql: supervision, and the reaping of an expired lease.
use steda.Prelude.{
  ◌&&◌, ℕ, ◌+◌, ◌*◌, ◌||◌, max, Bool, true, false, not, Option, none, some, ◌==◌, leb, ltb,
  if◌then◌else◌,
}
use steda.Text.{Str, codes, str_eq}
use steda.Json.{Json, Number, JsonObject, empty, insert, get}
use steda.Error.{Result, ok, err, fail_if, ◌>>=◌}
use steda.Types.{TaskState}
use steda.Sql.{TaskRow, Tables, set_run, is_due}
use steda.Sql.Attempts.{
  Raised, exception, AttemptContext, Server, lock_attempt_context, cancel_task, fail_run, instead,
}

abbrev pub is_running : TaskState → Bool
is_running TaskState.running = true
is_running _ = false

abbrev pub is_cancelled_state : TaskState → Bool
is_cancelled_state TaskState.cancelled = true
is_cancelled_state _ = false

-- The lease of a run has no end, or has not ended.
abbrev pub has_lease : Option ℕ → ℕ → Bool
has_lease none at = true
has_lease (some expires) at = ltb at expires

-- jsonb_strip_nulls drops an absent value.
abbrev pub insert_present {ℓ} : {A : Type ℓ} → Str → (A → Json) → Option A → JsonObject → JsonObject
insert_present key f none o = o
insert_present key f (some a) o = insert key (f a) o

-- The name of a failure is the reserved one.
abbrev pub is_lease_expired : Option Json → Bool
is_lease_expired (some (Json.object reason)) = named (get (codes "name") reason)
  where
    named : Option Json → Bool
    named (some (Json.string name)) = str_eq name (codes "$LeaseExpired")
    named _ = false
is_lease_expired _ = false

-- What the persisted states say, before the run is known to be running.
unfoldable pub persisted_outcome : AttemptContext → Option Str
persisted_outcome c =
    if is_cancelled_state c.task.state then some (codes "cancelled") else of_run c.run.state
  where
    of_run : TaskState → Option Str
    of_run TaskState.cancelled = some (codes "cancelled")
    of_run TaskState.failed =
        some (if is_lease_expired c.run.failure_reason then codes "lease_lost" else codes "failed")
    of_run TaskState.completed = some (codes "completed")
    of_run TaskState.sleeping = some (codes "suspended")
    of_run _ = none

module _ (server : Server) where
  abbrev pub lease_expired : AttemptContext → Json
  lease_expired c = Json.object (
      insert (codes "attempt") (Json.number (Number.pos_int c.run.attempt)) (
        insert_present (codes "claimExpiredAt") server.timestamp_json c.run.claim_expires_at (
          insert_present (codes "workerId") Json.string c.run.claimed_by (
            insert (codes "message")
              (Json.string (codes "worker did not renew task lease before expiry"))
              (insert (codes "name") (Json.string (codes "$LeaseExpired")) empty)))))

  abbrev pub is_authoritative : ℕ → AttemptContext → Bool
  is_authoritative r c = is_running c.task.state && (c.task.last_attempt_run == r)

  abbrev pub reap : ℕ → AttemptContext → Tables → Result (Bool × Tables) Raised
  reap r c u =
      if is_authoritative r c
      then (fail_run server r (lease_expired c) true u >>= λ p. ok (true, p.1))
      else err exception

  unfoldable pub reap_expired_run : ℕ → Tables → Result (Bool × Tables) Raised
  reap_expired_run r s = lock_attempt_context server r s >>= λ (c, u).
      if not (is_running c.run.state) || has_lease c.run.claim_expires_at c.observed_at
      then ok (false, u)
      else reap r c u

  -- What is reported of a lease that has been reaped.
  abbrev pub after_reaping : Option TaskRow → Str
  after_reaping none = codes "lease_lost"
  after_reaping (some task) =
      if is_cancelled_state task.state then codes "cancelled" else codes "lease_lost"

  abbrev pub renew : ℕ → Option ℕ → ℕ → AttemptContext → Tables → Tables
  renew r none expires c u = u
  renew r (some seconds) expires c u =
      if leb expires (c.observed_at + seconds * 500_000)
      then set_run r
          (record c.run {
            claim_expires_at = some (max expires (c.observed_at + seconds * 1_000_000));
          })
          u
      else u

  abbrev pub supervise_lease :
      ℕ → Option ℕ → Option ℕ → AttemptContext → Tables → Result (Str × Tables) Raised
  supervise_lease r seconds none c u = err exception
  supervise_lease r seconds (some expires) c u =
      if leb expires c.observed_at
      then (reap_expired_run r u >>= λ p. ok (after_reaping (p.1.tasks c.run.task_id), p.1))
      else ok (codes "running", renew r seconds expires c u)

  abbrev pub supervise_running :
      ℕ → Option ℕ → AttemptContext → Tables → Result (Str × Tables) Raised
  supervise_running r seconds c u =
      if is_due c.task c.observed_at
      then instead (codes "cancelled") (cancel_task server c.run.task_id u)
      else supervise_lease r seconds c.run.claim_expires_at c u

  abbrev pub supervise_attempt :
      ℕ → Option ℕ → Option Str → AttemptContext → Tables → Result (Str × Tables) Raised
  supervise_attempt r seconds (some outcome) c u = ok (outcome, u)
  supervise_attempt r seconds none c u =
      if is_running c.run.state && is_authoritative r c
      then supervise_running r seconds c u
      else err exception

  abbrev pub is_zero : Option ℕ → Bool
  is_zero none = false
  is_zero (some n) = n == 0

  unfoldable pub supervise_run : ℕ → Option ℕ → Tables → Result (Str × Tables) Raised
  supervise_run r seconds s = fail_if (is_zero seconds) exception >>= λ a.
      lock_attempt_context server r s >>= λ (c, u).
      supervise_attempt r seconds (persisted_outcome c) c u
