-- ===== src/Sql/Checkpoints.antt =====
-- sql/steda.sql: checkpoints. The checks of a checkpoint's name (blank, length) are left out.
use steda.Prelude.{ℕ, Bool, true, false, Option, none, some, ◌==◌, not, if◌then◌else◌}
use steda.Text.{Str, codes, str_eq}
use steda.Json.{Json}
use steda.Error.{Result, ok, fail_if, ◌>>=◌}
use steda.Sql.{Tables, is_due}
use steda.Sql.Attempts.{Raised, sqlstate, exception, Server, lock_running_attempt}

abbrev pub insert_checkpoint : ℕ → Str → Json → Tables → Tables
insert_checkpoint t name state s = record s {
  checkpoints = λ u n.
      if u == t
      then (if str_eq n name then some state else s.checkpoints u n)
      else s.checkpoints u n;
}

-- INSERT ON CONFLICT DO NOTHING, and the SELECT that follows a conflict.
abbrev pub commit_checkpoint : ℕ → Str → Json → Option Json → Tables → (Json × Bool) × Tables
commit_checkpoint t name state none s = ((state, true), insert_checkpoint t name state s)
commit_checkpoint t name state (some old) s = ((old, false), s)

module _ (server : Server) where
  unfoldable pub set_task_checkpoint_state :
      ℕ → Str → Json → ℕ → Tables → Result ((Json × Bool) × Tables) Raised
  set_task_checkpoint_state t name state r s = lock_running_attempt server r false s >>= λ (c, u).
      fail_if (not (c.run.task_id == t)) exception >>= λ a.
      fail_if (is_due c.task c.observed_at) (sqlstate (codes "ST001")) >>= λ b.
      ok (commit_checkpoint t name state (u.checkpoints t name) u)

  -- The checkpoint of a name, as get_task_checkpoint_states selects it.
  unfoldable pub get_task_checkpoint_states :
      ℕ → ℕ → Tables → Result ((Str → Option Json) × Tables) Raised
  get_task_checkpoint_states t r s = lock_running_attempt server r false s >>= λ (c, u).
      fail_if (not (c.run.task_id == t)) exception >>= λ a. ok (u.checkpoints t, u)
