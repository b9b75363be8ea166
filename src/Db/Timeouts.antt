-- ===== src/Db/Timeouts.antt =====
-- A wait times out only when its time has passed.
use steda.Prelude.{ap, ℕ, zero, suc, ◌-◌, ◌≤◌, ◌≡◌, ◌≢◌, refl, Option, none, some, arith}
use steda.Text.{Str}
use steda.Duration.{Duration, as_nanos}
use steda.Identifiers.{TaskId}
use steda.Error.{SqlxError, Message, Error, Result, ok, err}
use steda.Types.{TaskResultSnapshot}
use steda.World.{ResultRow, ResultRow, ◌>>=◌, lift, call, Database, Clock}
use steda.Db.{
  snapshot_from_state, observed, snapshot_from_row, act, resume, poll, fetch_task_result_snapshot,
  judge, Verdict, answers, gives_up, waits, next_delay, timed_out, await_loop,
  await_task_result_snapshot, initial_result_backoff,
}
use steda.Db.Polling.{judge-gives_up}

-- The errors that a query's row can give are no time-outs.
snapshot_from_state-ne-timeout :
    (task_id : TaskId) (row : ResultRow) (m : Message)
    → snapshot_from_state task_id row ≢ err (Error.timeout m)
unfolding snapshot_from_state
snapshot_from_state-ne-timeout task_id row m e = ground arith

snapshot_from_row-ne-timeout :
    (task_name : Str) (task_id : TaskId) (row : Option ResultRow) (m : Message)
    → snapshot_from_row task_name task_id row ≢ err (Error.timeout m)
unfolding snapshot_from_row
snapshot_from_row-ne-timeout task_name task_id none m e = cc
snapshot_from_row-ne-timeout task_name task_id (some row) m e =
    ground (arith, snapshot_from_state-ne-timeout task_id row m)

module _ {S : Type 0} (db : Database S) (clock : Clock S) (queue_name task_name : Str)
    (task_id : TaskId) where
  act-deadline :
      (timeout : Option Duration) (started : ℕ) (delay : Duration)
      (rest : Duration → S → Option (Result TaskResultSnapshot Error × S))
      (snapshot : TaskResultSnapshot) (v : Verdict) (t : S) {u : S}
      → ((d : Duration) (t : S)
          → rest d t ≡ some (err (timed_out task_id), u)
          → (t : Duration) × (timeout ≡ some t) × (as_nanos t ≤ clock.now u - started))
      → judge snapshot timeout (clock.now t - started) delay ≡ v
      → act clock task_id timeout rest v t ≡ some (err (timed_out task_id), u)
      → (t : Duration) × (timeout ≡ some t) × (as_nanos t ≤ clock.now u - started)
  act-deadline timeout started delay rest snapshot (answers a) t ih e h = cc
  act-deadline timeout started delay rest snapshot gives_up t {u} ih e h =
      let (limit, same, past) = judge-gives_up snapshot timeout (clock.now t - started) delay e in
      let now_u : clock.now t ≡ clock.now u = ap clock.now cc in (limit, same, omega arith)
  act-deadline timeout started delay rest snapshot (waits d) t ih e h =
      ih (next_delay d) (clock.sleep d t) h

  poll-ne-timeout :
      (s t : S) (m : Message) → poll db queue_name task_name task_id s ≢ (err (Error.timeout m), t)
  unfolding poll fetch_task_result_snapshot
  poll-ne-timeout s t m e = go (db.get_task_result queue_name task_id s) e
    where
      go :
          (p : Result (Option ResultRow) SqlxError × S)
          → ((call (λ s. p) >>= λ row. lift (snapshot_from_row task_name task_id row)) >>= λ o.
                lift (observed task_id o))
              s
            ≢ (err (Error.timeout m), t)
      go (err x, u) h = cc
      go (ok row, u) h = ground (arith, snapshot_from_row-ne-timeout task_name task_id row m)

  resume-deadline :
      (timeout : Option Duration) (started : ℕ) (delay : Duration)
      (rest : Duration → S → Option (Result TaskResultSnapshot Error × S))
      (p : Result TaskResultSnapshot Error × S) {u : S}
      → ((d : Duration) (t : S)
          → rest d t ≡ some (err (timed_out task_id), u)
          → (t : Duration) × (timeout ≡ some t) × (as_nanos t ≤ clock.now u - started))
      → ((t : S) → p ≢ (err (timed_out task_id), t))
      → resume clock task_id timeout rest started delay p ≡ some (err (timed_out task_id), u)
      → (t : Duration) × (timeout ≡ some t) × (as_nanos t ≤ clock.now u - started)
  resume-deadline timeout started delay rest (err x, t) ih other h = absurd (other t cc)
  resume-deadline timeout started delay rest (ok snapshot, t) ih other h =
      act-deadline timeout started delay rest snapshot
        (judge snapshot timeout (clock.now t - started) delay) t ih refl h

  await_loop-deadline :
      (fuel : ℕ) (timeout : Option Duration) (started : ℕ) (delay : Duration) (s : S) {u : S}
      → await_loop db clock fuel queue_name task_name task_id timeout started delay s
        ≡ some (err (timed_out task_id), u)
      → (t : Duration) × (timeout ≡ some t) × (as_nanos t ≤ clock.now u - started)
  unfolding await_loop
  await_loop-deadline zero timeout started delay s h = cc
  await_loop-deadline (suc fuel) timeout started delay s h =
      resume-deadline timeout started delay
        (await_loop db clock fuel queue_name task_name task_id timeout started)
        (poll db queue_name task_name task_id s)
        (λ d t. await_loop-deadline fuel timeout started d t) (λ t. poll-ne-timeout s t _) h

  -- A wait that times out had a timeout, and at least that time has passed since it began.
  pub await_task_result_snapshot-deadline :
      (fuel : ℕ) (timeout : Option Duration) (s : S) {u : S}
      → await_task_result_snapshot db clock fuel queue_name task_name task_id timeout s
        ≡ some (err (timed_out task_id), u)
      → (t : Duration) × (timeout ≡ some t) × (as_nanos t ≤ clock.now u - clock.now s)
  unfolding await_task_result_snapshot
  await_task_result_snapshot-deadline fuel timeout s h =
      await_loop-deadline fuel timeout (clock.now s) initial_result_backoff s h
