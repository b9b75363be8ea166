-- ===== src/Sql/Changes/Spawns.antt =====
-- A spawn, as a change of the tables.
use steda.Prelude.{ℕ, ◌+◌, ◌≡◌, refl, Bool, Option, none, some, arith, ap, ◌∙◌}
use steda.Text.{Str}
use steda.Error.{ok, >>=-eq-ok}
use steda.Types.{TaskState}
use steda.Prelude.{sym}
use steda.Sql.{RunRow, put, Request, TaskRow, Tables, tick, draw, set_task, set_run}
use steda.Sql.Attempts.{Server, insert_run, new_run}
use steda.Sql.Spawns.{
  spawn_task, spawn_found, spawn_new, spawn_existing, find_key, record_key, insert_task, new_task,
}
use steda.Sql.Changes.{Change, noted, begun}
use steda.Sql.Changes.Failures.{insert_run-ok}

insert_task-ok :
    (t : ℕ) (task : TaskRow) (o : Option TaskRow) (s u : Tables)
    → insert_task t task o s ≡ ok u
    → (o ≡ none) × (u ≡ set_task t task s)
insert_task-ok t task none s u e = (refl, ground (arith, e))
insert_task-ok t task (some old) s u e = cc

record_key-tables :
    (key : Option Str) (t : ℕ) (s : Tables)
    → ((record_key key t s).tasks ≡ s.tasks)
      × ((record_key key t s).runs ≡ s.runs)
      × ((record_key key t s).checkpoints ≡ s.checkpoints)
record_key-tables none t s = (refl, refl, refl)
record_key-tables (some key) t s = (refl, refl, refl)

module _ (server : Server) where
  spawn_new-Change :
      (request : Request) (t n at : ℕ) (before v : Tables) (x : ℕ × Bool)
      → spawn_new server request t n at (tick (draw (draw before))) ≡ ok (x, v)
      → Change before v
  spawn_new-Change request t n at before v x e =
      let s = tick (draw (draw before)) in
      let task = new_task request n at in
      let run = new_run server t 1 TaskState.pending at in
      let (u, inserted, rest) = >>=-eq-ok (insert_task t task (s.tasks t) s) _ e in
      let (w, started, last) =
        >>=-eq-ok (insert_run server n run (record_key request.idempotency_key t u)) _ rest in
      let (absent, written) = insert_task-ok t task (s.tasks t) s u inserted in
      let (fresh, run_written) =
        insert_run-ok server n run (record_key request.idempotency_key t u) w started in
      let (k1, k2, k3) = record_key-tables request.idempotency_key t u in
      let done : v ≡ set_run n run (record_key request.idempotency_key t u) =
        ground (arith, last, run_written) in
      begun t task n run
        (record {
          task_absent = absent;
          run_absent =
              ap (λ (f : ℕ → Option RunRow). f n) (sym (k2 ∙ ap (λ (z : Tables). z.runs) written))
              ∙ fresh;
          own = refl;
          attempt = refl;
          agrees = refl;
          last = refl;
          leased = tt;
          budget = omega arith;
        })
        (ap (λ (z : Tables). z.tasks) done ∙ k1 ∙ ap (λ (z : Tables). z.tasks) written)
        (ap (λ (z : Tables). z.runs) done
          ∙ ap (put n run) (k2 ∙ ap (λ (z : Tables). z.runs) written))
        (ap (λ (z : Tables). z.checkpoints) done ∙ k3 ∙ ap (λ (z : Tables). z.checkpoints) written)

  spawn_existing-Change :
      (request : Request) (t : ℕ) (o : Option TaskRow) (s v : Tables) (x : ℕ × Bool)
      → spawn_existing server request t o s ≡ ok (x, v)
      → v ≡ s
  spawn_existing-Change request t none s v x e = cc
  spawn_existing-Change request t (some task) s v x e = ground (arith, e)

  pub spawn_task-Change :
      (request : Request) (s v : Tables) (x : ℕ × Bool)
      → spawn_task server request s ≡ ok (x, v)
      → Change s v
  unfolding spawn_task
  spawn_task-Change request s v x e = go (find_key request.idempotency_key s) e
    where
      t : ℕ
      t = server.uuid s.generated

      n : ℕ
      n = server.uuid (s.generated + 1)

      start : Tables
      start = tick (draw (draw s))

      go :
          (o : Option ℕ)
          → spawn_found server request t n (server.clock s.readings) o start ≡ ok (x, v)
          → Change s v
      go none h = spawn_new-Change request t n (server.clock s.readings) s v x h
      go (some old) h =
          let same : v ≡ start = spawn_existing-Change request old (start.tasks old) start v x h in
          noted (ap (λ (z : Tables). z.tasks) same) (ap (λ (z : Tables). z.runs) same)
            (ap (λ (z : Tables). z.checkpoints) same)
