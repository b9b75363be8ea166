-- ===== src/Db/Deadline.antt =====
-- A wait with a timeout ends.
use steda.Prelude.{
  ap, ℕ, zero, suc, ◌+◌, ◌-◌, ◌*◌, ◌≤◌, ◌≡◌, refl, ◌⊎◌, inl, inr, Option, some, arith,
}
use steda.Text.{Str}
use steda.Duration.{Duration, as_nanos}
use steda.Identifiers.{TaskId}
use steda.Error.{Error, Result, ok, err}
use steda.Types.{TaskResultSnapshot}
use steda.World.{Database, Clock, IsClock}
use steda.Db.{
  act, resume, poll, fetch_task_result_snapshot, judge, Verdict, answers, gives_up, waits,
  next_delay, await_loop, await_task_result_snapshot, initial_result_backoff,
}
use steda.Db.Polling.{judge-waits, next_delay_bounds}

-- The call comes back.
abbrev pub Returns {ℓ} : {A : Type ℓ} → Option A → Type ℓ
Returns {A} o = (a : A) × (◌≡◌ {A = Option A} o (some a))

module _ {S : Type 0} (db : Database S) (queue_name task_name : Str) (task_id : TaskId) where
  poll-state :
      (s : S)
      → (poll db queue_name task_name task_id s).1 ≡ (db.get_task_result queue_name task_id s).1
  unfolding poll fetch_task_result_snapshot
  poll-state s = ground arith

module _ {S : Type 0} (db : Database S) (clock : Clock S) (queue_name task_name : Str)
    (task_id : TaskId) where
  -- The clock does not go back over a query of the task's result.
  abbrev pub KeepsTime : Type 0
  KeepsTime = (s : S) → clock.now s ≤ clock.now (db.get_task_result queue_name task_id s).1

  -- What is left of the wait: nothing, or some rounds of at least 50 ms.
  abbrev Left : Duration → ℕ → ℕ → Duration → S → Type 0
  Left timeout started f delay s =
      (as_nanos timeout ≤ clock.now s - started)
      ⊎ ((50_000_000 ≤ as_nanos delay)
          × (as_nanos timeout ≤ clock.now s - started + f * 50_000_000))

  Left-after_sleep :
      IsClock clock
      → (timeout : Duration) (started f : ℕ) (delay : Duration) (snapshot : TaskResultSnapshot)
        (d : Duration) (t : S)
      → judge snapshot (some timeout) (clock.now t - started) delay ≡ waits d
      → started ≤ clock.now t
      → Left timeout started (suc f) delay t
      → Left timeout started f (next_delay d) (clock.sleep d t)
  Left-after_sleep c timeout started f delay snapshot d t e m (inl past) =
      absurd (omega (arith, judge-waits snapshot timeout (clock.now t - started) delay d e))
  Left-after_sleep c timeout started f delay snapshot d t e m (inr (wide, left)) =
      let (early, fits, short, which) =
        judge-waits snapshot timeout (clock.now t - started) delay d e in
      let later = c.slept d t in
      elim which [
        | inl same ↦ inr ((next_delay_bounds d (omega arith)).0, omega arith)
        | inr last ↦ inl (omega arith)
      ]

  act-Returns :
      IsClock clock
      → (timeout : Duration) (started f : ℕ) (delay : Duration)
        (rest : Duration → S → Option (Result TaskResultSnapshot Error × S))
        (snapshot : TaskResultSnapshot) (v : Verdict) (t : S)
      → ((d : Duration) (t : S)
          → started ≤ clock.now t
          → Left timeout started f d t
          → Returns (rest d t))
      → judge snapshot (some timeout) (clock.now t - started) delay ≡ v
      → started ≤ clock.now t
      → Left timeout started (suc f) delay t
      → Returns (act clock task_id (some timeout) rest v t)
  act-Returns c timeout started f delay rest snapshot (answers a) t ih e m l = (_, refl)
  act-Returns c timeout started f delay rest snapshot gives_up t ih e m l = (_, refl)
  act-Returns c timeout started f delay rest snapshot (waits d) t ih e m l =
      ih (next_delay d) (clock.sleep d t) (omega (arith, c.slept d t))
        (Left-after_sleep c timeout started f delay snapshot d t e m l)

  resume-Returns :
      IsClock clock
      → (timeout : Duration) (started f : ℕ) (delay : Duration)
        (rest : Duration → S → Option (Result TaskResultSnapshot Error × S))
        (p : Result TaskResultSnapshot Error × S)
      → ((d : Duration) (t : S)
          → started ≤ clock.now t
          → Left timeout started f d t
          → Returns (rest d t))
      → started ≤ clock.now p.1
      → Left timeout started (suc f) delay p.1
      → Returns (resume clock task_id (some timeout) rest started delay p)
  resume-Returns c timeout started f delay rest (err x, t) ih m l = (_, refl)
  resume-Returns c timeout started f delay rest (ok snapshot, t) ih m l =
      act-Returns c timeout started f delay rest snapshot
        (judge snapshot (some timeout) (clock.now t - started) delay) t ih refl m l

  later_Left :
      (timeout : Duration) (started f : ℕ) (delay : Duration) (s t : S)
      → clock.now s ≤ clock.now t
      → Left timeout started f delay s
      → Left timeout started f delay t
  later_Left timeout started f delay s t h (inl past) = inl (omega arith)
  later_Left timeout started f delay s t h (inr (wide, left)) = inr (wide, omega arith)

  act-Returns_past :
      (timeout : Duration) (started : ℕ) (delay : Duration)
      (rest : Duration → S → Option (Result TaskResultSnapshot Error × S))
      (snapshot : TaskResultSnapshot) (v : Verdict) (t : S)
      → judge snapshot (some timeout) (clock.now t - started) delay ≡ v
      → as_nanos timeout ≤ clock.now t - started
      → Returns (act clock task_id (some timeout) rest v t)
  act-Returns_past timeout started delay rest snapshot (answers a) t e past = (_, refl)
  act-Returns_past timeout started delay rest snapshot gives_up t e past = (_, refl)
  act-Returns_past timeout started delay rest snapshot (waits d) t e past =
      absurd (omega (arith, judge-waits snapshot timeout (clock.now t - started) delay d e))

  resume-Returns_past :
      (timeout : Duration) (started : ℕ) (delay : Duration)
      (rest : Duration → S → Option (Result TaskResultSnapshot Error × S))
      (p : Result TaskResultSnapshot Error × S)
      → as_nanos timeout ≤ clock.now p.1 - started
      → Returns (resume clock task_id (some timeout) rest started delay p)
  resume-Returns_past timeout started delay rest (err x, t) past = (_, refl)
  resume-Returns_past timeout started delay rest (ok snapshot, t) past =
      act-Returns_past timeout started delay rest snapshot
        (judge snapshot (some timeout) (clock.now t - started) delay) t refl past

  await_loop-Returns :
      IsClock clock
      → KeepsTime
      → (f : ℕ) (timeout : Duration) (started : ℕ) (delay : Duration) (s : S)
      → started ≤ clock.now s
      → Left timeout started f delay s
      → Returns
          (await_loop db clock (suc f) queue_name task_name task_id (some timeout) started delay s)
  unfolding await_loop
  await_loop-Returns c k zero timeout started delay s m l =
      let polled = ap clock.now (poll-state db queue_name task_name task_id s) in
      resume-Returns_past timeout started delay
        (await_loop db clock zero queue_name task_name task_id (some timeout) started)
        (poll db queue_name task_name task_id s) (ground (arith, polled, k s))
  await_loop-Returns c k (suc f) timeout started delay s m l =
      let polled = ap clock.now (poll-state db queue_name task_name task_id s) in
      resume-Returns c timeout started f delay
        (await_loop db clock (suc f) queue_name task_name task_id (some timeout) started)
        (poll db queue_name task_name task_id s)
        (λ d t m l. await_loop-Returns c k f timeout started d t m l) (omega (arith, polled, k s))
        (later_Left timeout started (suc f) delay s (poll db queue_name task_name task_id s).1
          (omega (arith, polled, k s)) l)

  -- With a timeout, a wait ends: where a sleep lasts as long as it should and the clock does not go
  -- back over a query, one round more than the timeout has spans of 50 ms is enough fuel, whatever
  -- the database answers.
  pub await_task_result_snapshot-Returns :
      IsClock clock
      → KeepsTime
      → (f : ℕ) (timeout : Duration) (s : S) → as_nanos timeout ≤ f * 50_000_000
      → Returns (
          await_task_result_snapshot db clock (suc f) queue_name task_name task_id (some timeout) s)
  unfolding await_task_result_snapshot
  await_task_result_snapshot-Returns c k f timeout s h =
      await_loop-Returns c k f timeout (clock.now s) initial_result_backoff s (omega arith)
        (inr (omega arith, omega arith))
