-- ===== src/Context/Steps.antt =====
-- Checkpoints replay: a committed step is not run again, and its value stays what it was.
use steda.Prelude.{
  sym, ◌∙◌, ap, if◌then◌else◌, ◌≡◌, refl, inl, inr, true, false, Bool, none, some, arith,
  Option-cases, if◌then◌else◌, ap,
}
use steda.Text.{Str}
use steda.Text.Equality.{str_eq_refl}
use steda.Json.{Json, get, insert, get-insert}
use steda.Error.{Error, map_err-eq-ok, SqlxError, Error, Result, ok, err}
use steda.Task.{Codec, encode, decode}
use steda.Task.References.{IsFaithful}
use steda.World.{Database}
use steda.Run.{after-eq-ok, Run}
use steda.Context.{TaskContext, Cell, persist_checkpoint, execute_checkpoint, checkpoint}

-- What the database promises of a checkpoint that it reports as written: the state that it returns
-- is the state that it was given.
abbrev pub WritesWhatIsGiven : {S : Type 0} → Database S → Type 0
WritesWhatIsGiven {S} db =
    (queue : Str) (task : _) (name : Str) (value : Json) (run : _) (s t : S) (state : Json)
    → db.set_task_checkpoint_state queue task name value run s ≡ (ok (state, true), t)
    → state ≡ value

module _ {S : Type 0} (db : Database S) (ctx : TaskContext) where
  -- A call that persists a state has cached it, next to what was cached before.
  pub persist_checkpoint-ok :
      (name : Str) (value : Json) (c d : Cell S) {state : Json} {written : Bool}
      → persist_checkpoint db ctx name value c ≡ some (ok (state, written), d)
      → (t : S) × (db.set_task_checkpoint_state ctx.queue_name ctx.task.task_id name value
            ctx.task.run_id c.store
          ≡ (ok (state, written), t))
        × (d.checkpoint_cache ≡ insert name state c.checkpoint_cache)
  unfolding persist_checkpoint
  persist_checkpoint-ok name value c d {state} {written} e =
      go
        (db.set_task_checkpoint_state ctx.queue_name ctx.task.task_id name value ctx.task.run_id
          c.store)
        refl
    where
      go :
          (p : Result (Json × Bool) SqlxError × S)
          → db.set_task_checkpoint_state ctx.queue_name ctx.task.task_id name value ctx.task.run_id
              c.store
            ≡ p
          → (t : S) × (db.set_task_checkpoint_state ctx.queue_name ctx.task.task_id name value
                ctx.task.run_id c.store
              ≡ (ok (state, written), t))
            × (d.checkpoint_cache ≡ insert name state c.checkpoint_cache)
      go (ok (j, w), t) q = (t, ground arith, ground arith)
      go (err x, t) q = absurd (ground arith)

module _ {S T : Type 0} (db : Database S) (ctx : TaskContext) (codec : Codec T) where
  -- With the name cached, the body is not run and nothing changes.
  pub checkpoint-cached :
      (name : Str) (body : Run (Cell S) T) (c : Cell S) {state : Json}
      → get name c.checkpoint_cache ≡ some state
      → checkpoint db ctx codec name body c ≡ some (decode codec state, c)
  unfolding checkpoint
  checkpoint-cached name body c e = ground arith

  -- What a successful execution leaves: the name is cached with the state that the database keeps,
  -- and the value is the computed one if that was written, the kept one if not.
  execute_checkpoint-ok :
      (name : Str) (body : Run (Cell S) T) (c d : Cell S) {v : T}
      → execute_checkpoint db ctx codec name body c ≡ some (ok v, d)
      → (w : T) × (j state : Json) × (written : Bool) × (s t : S) × (encode codec w ≡ ok j)
        × (db.set_task_checkpoint_state ctx.queue_name ctx.task.task_id name j ctx.task.run_id s
            ≡ (ok (state, written), t))
        × ((if written then ok w else decode codec state) ≡ ok v)
        × (get name d.checkpoint_cache ≡ some state)
  unfolding execute_checkpoint
  execute_checkpoint-ok name body c d e =
      let (w, c1, e1, h) = after-eq-ok _ (body c) e in
      let (j, c2, e2, h) = after-eq-ok _ (some (encode codec w, c1)) h in
      let (row, c3, e3, h) = after-eq-ok _ (persist_checkpoint db ctx name j c2) h in
      let (t, q, k) =
        persist_checkpoint-ok db ctx name j c2 c3 {state = row.0} {written = row.1} e3 in
      (
        w,
        j,
        row.0,
        row.1,
        c2.store,
        t,
        ground arith,
        q,
        ground arith,
        ground (arith, k, get-insert name name row.0 c2.checkpoint_cache, str_eq_refl name),
      )

  checkpoint-missed :
      (name : Str) (body : Run (Cell S) T) (c : Cell S)
      → get name c.checkpoint_cache ≡ none
      → checkpoint db ctx codec name body c ≡ execute_checkpoint db ctx codec name body c
  unfolding checkpoint
  checkpoint-missed name body c e = ground arith

  -- The kept state decodes to the returned value.
  kept_value :
      IsFaithful codec
      → (w v : T) (j state : Json) (written : Bool) → encode codec w ≡ ok j
      → (written ≡ true → state ≡ j)
      → (if written then ok w else decode codec state) ≡ ok v
      → decode codec state ≡ ok v
  kept_value faithful w v j state true e same h =
      ground
        (arith, same refl, faithful w j (map_err-eq-ok Error.serialization (codec.to_value w) e))
  kept_value faithful w v j state false e same h = h

  -- A step that returned a value returns it again, without running its body and without changing
  -- anything, whatever body the replay passes: where the codec reads back what it wrote, and the
  -- database keeps what it reports as written.
  pub checkpoint_twice :
      IsFaithful codec
      → WritesWhatIsGiven db
      → (name : Str) (body other : Run (Cell S) T) (c d : Cell S) (v : T)
      → checkpoint db ctx codec name body c ≡ some (ok v, d)
      → checkpoint db ctx codec name other d ≡ some (ok v, d)
  checkpoint_twice faithful writes name body other c d v e =
      elim (Option-cases (get name c.checkpoint_cache)) [
        | inr (state, hit) ↦
            let same = checkpoint-cached name body c hit in
            ground (arith, same, checkpoint-cached name other c hit)
        | inl miss ↦
            let (w, j, state, written, s, t, e1, e2, e3, k) =
              execute_checkpoint-ok name body c d (sym (checkpoint-missed name body c miss) ∙ e) in
            let kept =
              kept_value faithful w v j state written e1
                (λ yes_written.
                  writes ctx.queue_name ctx.task.task_id name j ctx.task.run_id s t state
                    (ground arith))
                e3 in
            checkpoint-cached name other d k ∙ ap (λ r. some (r, d)) kept
      ]
