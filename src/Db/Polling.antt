-- ===== src/Db/Polling.antt =====
-- The loop that waits for a task's result: what it returns, when it gives up, and that it ends.
use steda.Prelude.{
  ◌<◌, zero, suc, ◌-◌, ℕ, ◌+◌, ◌≤◌, ◌≡◌, refl, ◌⊎◌, true, Option, none, some, arith,
}
use steda.Duration.{Duration, as_nanos}
use steda.Types.{TaskResultSnapshot, is_terminal}
use steda.Error.{Error, Result, ok, err}
use steda.World.{Database, Clock}
use steda.Db.{
  suc, act, resume, poll, judge, Verdict, answers, gives_up, waits, next_delay, await_loop,
  await_task_result_snapshot, initial_result_backoff,
}
use steda.Text.{Str, Str}
use steda.Identifiers.{TaskId, TaskId}

judge-answers :
    (snapshot : TaskResultSnapshot) (timeout : Option Duration) (elapsed : ℕ) (delay : Duration)
    {a : TaskResultSnapshot}
    → judge snapshot timeout elapsed delay ≡ answers a
    → is_terminal a ≡ true
unfolding judge
judge-answers snapshot none elapsed delay e = ground arith
judge-answers snapshot (some t) elapsed delay e = ground arith

-- With a timeout the loop never sleeps past its deadline, nor longer than its delay.
pub judge-waits :
    (snapshot : TaskResultSnapshot) (timeout : Duration) (elapsed : ℕ) (delay d : Duration)
    → judge snapshot (some timeout) elapsed delay ≡ waits d
    → (elapsed < as_nanos timeout)
      × (elapsed + as_nanos d ≤ as_nanos timeout)
      × (as_nanos d ≤ as_nanos delay)
      × ((as_nanos d ≡ as_nanos delay) ⊎ (elapsed + as_nanos d ≡ as_nanos timeout))
unfolding judge
judge-waits snapshot timeout elapsed delay d e = ground arith

pub judge-gives_up :
    (snapshot : TaskResultSnapshot) (timeout : Option Duration) (elapsed : ℕ) (delay : Duration)
    → judge snapshot timeout elapsed delay ≡ gives_up
    → (t : Duration) × (timeout ≡ some t) × (as_nanos t ≤ elapsed)
unfolding judge
judge-gives_up snapshot none elapsed delay e = ground arith
judge-gives_up snapshot (some t) elapsed delay e = (t, refl, ground arith)

pub next_delay_bounds :
    (d : Duration)
    → 50_000_000 ≤ as_nanos d
    → (50_000_000 ≤ as_nanos (next_delay d)) × (as_nanos (next_delay d) ≤ 1_000_000_000)
next_delay_bounds d h = ground arith

module _ {S : Type 0} (db : Database S) (clock : Clock S) (queue_name task_name : Str)
    (task_id : TaskId) where
  act-IsTerminal :
      (timeout : Option Duration)
      (rest : Duration → S → Option (Result TaskResultSnapshot Error × S)) (v : Verdict) (t : S)
      {a : TaskResultSnapshot} {u : S}
      → ((d : Duration) (t : S) → rest d t ≡ some (ok a, u) → is_terminal a ≡ true)
      → (v ≡ answers a → is_terminal a ≡ true)
      → act clock task_id timeout rest v t ≡ some (ok a, u)
      → is_terminal a ≡ true
  act-IsTerminal timeout rest (answers b) t ih h e = h cc
  act-IsTerminal timeout rest gives_up t ih h e = cc
  act-IsTerminal timeout rest (waits d) t ih h e = ih (next_delay d) (clock.sleep d t) e

  resume-IsTerminal :
      (timeout : Option Duration)
      (rest : Duration → S → Option (Result TaskResultSnapshot Error × S)) (started : ℕ)
      (delay : Duration) (p : Result TaskResultSnapshot Error × S) {a : TaskResultSnapshot} {u : S}
      → ((d : Duration) (t : S) → rest d t ≡ some (ok a, u) → is_terminal a ≡ true)
      → resume clock task_id timeout rest started delay p ≡ some (ok a, u)
      → is_terminal a ≡ true
  resume-IsTerminal timeout rest started delay (err x, t) ih e = cc
  resume-IsTerminal timeout rest started delay (ok snapshot, t) ih e =
      act-IsTerminal timeout rest (judge snapshot timeout (clock.now t - started) delay) t ih
        (judge-answers snapshot timeout (clock.now t - started) delay) e

  await_loop-IsTerminal :
      (fuel : ℕ) (timeout : Option Duration) (started : ℕ) (delay : Duration) (s : S)
      {a : TaskResultSnapshot} {u : S}
      → await_loop db clock fuel queue_name task_name task_id timeout started delay s
        ≡ some (ok a, u)
      → is_terminal a ≡ true
  unfolding await_loop
  await_loop-IsTerminal zero timeout started delay s e = cc
  await_loop-IsTerminal (suc fuel) timeout started delay s e =
      resume-IsTerminal timeout
        (await_loop db clock fuel queue_name task_name task_id timeout started) started delay
        (poll db queue_name task_name task_id s)
        (λ d t. await_loop-IsTerminal fuel timeout started d t) e

  -- A wait that returns a snapshot returns a terminal one, whatever the database does.
  pub await_task_result_snapshot-IsTerminal :
      (fuel : ℕ) (timeout : Option Duration) (s : S) {a : TaskResultSnapshot} {u : S}
      → await_task_result_snapshot db clock fuel queue_name task_name task_id timeout s
        ≡ some (ok a, u)
      → is_terminal a ≡ true
  unfolding await_task_result_snapshot
  await_task_result_snapshot-IsTerminal fuel timeout s e =
      await_loop-IsTerminal fuel timeout (clock.now s) initial_result_backoff s e
