-- ===== src/Context/Sleeps.antt =====
-- The first wake time that is committed for a sleep is the one that every replay uses.
use steda.Prelude.{◌≡◌, refl, ◌∙◌, sym, ap, Option, none, some, arith}
use steda.Text.{Str}
use steda.Json.{Json, get, get-insert}
use steda.Text.Equality.{str_eq_refl}
use steda.Error.{ok}
use steda.Task.{encode, decode}
use steda.World.{Database, Timestamp}
use steda.Run.{after-eq-ok}
use steda.Context.{commit_wake_time, TaskContext, Cell, Calendar, persist_checkpoint, wake_time}
use steda.Context.Steps.{persist_checkpoint-ok}

module _ {S : Type 0} (db : Database S) (calendar : Calendar) (ctx : TaskContext) where
  wake_time-cached :
      (name : Str) (wake_at : Timestamp) (c : Cell S) {j : Json}
      → get name c.checkpoint_cache ≡ some j
      → wake_time db calendar ctx name wake_at c ≡ some (decode calendar.timestamps j, c)
  unfolding wake_time
  wake_time-cached name wake_at c h = ground arith

  wake_time-missed :
      (name : Str) (wake_at : Timestamp) (c : Cell S)
      → get name c.checkpoint_cache ≡ none
      → wake_time db calendar ctx name wake_at c ≡ commit_wake_time db calendar ctx name wake_at c
  unfolding wake_time
  wake_time-missed name wake_at c h = ground arith

  commit_wake_time-kept :
      (name : Str) (wake_at : Timestamp) (c d : Cell S) (w : Timestamp)
      → commit_wake_time db calendar ctx name wake_at c ≡ some (ok w, d)
      → (j : Json) × (get name d.checkpoint_cache ≡ some j) × (decode calendar.timestamps j ≡ ok w)
  unfolding commit_wake_time
  commit_wake_time-kept name wake_at c d w e =
      let (v, c1, e1, h) = after-eq-ok _ (some (encode calendar.timestamps wake_at, c)) e in
      let (row, c2, e2, h) = after-eq-ok _ (persist_checkpoint db ctx name v c1) h in
      let (t, q, k) =
        persist_checkpoint-ok db ctx name v c1 c2 {state = row.0} {written = row.1} e2 in
      (
        row.0,
        ground (arith, k, get-insert name name row.0 c1.checkpoint_cache, str_eq_refl name),
        ground arith,
      )

  wake_time-kept :
      (name : Str) (wake_at : Timestamp) (c d : Cell S) (w : Timestamp)
      → wake_time db calendar ctx name wake_at c ≡ some (ok w, d)
      → (j : Json) × (get name d.checkpoint_cache ≡ some j) × (decode calendar.timestamps j ≡ ok w)
  unfolding wake_time
  wake_time-kept name wake_at c d w e = go (get name c.checkpoint_cache) refl
    where
      go :
          (o : Option Json)
          → get name c.checkpoint_cache ≡ o
          → (j : Json) × (get name d.checkpoint_cache ≡ some j)
            × (decode calendar.timestamps j ≡ ok w)
      go (some j) hit = (j, ground arith, ground arith)
      go none miss =
          commit_wake_time-kept name wake_at c d w (sym (wake_time-missed name wake_at c miss) ∙ e)

  -- Once a sleep has a wake time, a call of it from any later cell, in which every checkpoint that
  -- was cached then has its value, has that wake time, whatever time the call passes, and leaves the
  -- cell as it is: other operations may have run between the two, and the cache may have been loaded
  -- again.
  pub wake_time_twice :
      (name : Str) (first later : Timestamp) (c d e : Cell S) (w : Timestamp)
      → wake_time db calendar ctx name first c ≡ some (ok w, d)
      → ((k : Str) (j : Json)
          → get k d.checkpoint_cache ≡ some j
          → get k e.checkpoint_cache ≡ some j)
      → wake_time db calendar ctx name later e ≡ some (ok w, e)
  wake_time_twice name first later c d e w called keeps =
      let (j, k, same) = wake_time-kept name first c d w called in
      wake_time-cached name later e (keeps name j k) ∙ ap (λ r. some (r, e)) same
