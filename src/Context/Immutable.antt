-- ===== src/Context/Immutable.antt =====
-- A checkpoint that is cached never changes, whichever operations of the context follow.
use steda.Prelude.{◌≡◌, refl, inl, inr, false, Bool, Option, none, some, arith, Bool-cases}
use steda.Text.{Str, str_eq}
use steda.Text.Equality.{eq_of_str_eq}
use steda.Json.{Json, JsonObject, get, get-insert}
use steda.Error.{Error, Result, ok, err, SqlxError}
use steda.Task.{Codec, encode, decode}
use steda.World.{call_mapped, Database, Timestamp, M}
use steda.Run.{Run, after-cases, lift, total, ◌>>=◌}
use steda.Names.{
  workflow_storage_name, keyed_workflow_storage_name, step_prefix, keyed_step_prefix, sleep_prefix,
}
use steda.Context.{
  commit_wake_time, TaskContext, Cell, Calendar, on_store, persist_checkpoint, execute_checkpoint,
  checkpoint, step, step_keyed, wake_time, schedule_run, schedule_outcome, sleep_result,
  sleep_until,
}

-- Whatever is cached under the key stays, however the call ends.
abbrev pub KeepsKey : {S A : Type 0} → Str → Run (Cell S) A → Type 0
KeepsKey {S} {A} k m =
    (c d : Cell S) (r : Result A Error) (j : Json)
    → m c ≡ some (r, d)
    → get k c.checkpoint_cache ≡ some j
    → get k d.checkpoint_cache ≡ some j

abbrev pub Keeps : {S A : Type 0} → Run (Cell S) A → Type 0
Keeps m = (k : Str) → KeepsKey k m

bind-KeepsKey :
    {S A B : Type 0} (k : Str) (m : Run (Cell S) A) (f : A → Run (Cell S) B)
    → KeepsKey k m
    → ((a : A) → KeepsKey k (f a))
    → KeepsKey k (m >>= f)
bind-KeepsKey k m f km kf c d r j e h = elim (after-cases f (m c) e) [
  | inl (a, t, e1, e2) ↦ kf a t d r j e2 (km c t (ok a) j e1 h)
  | inr (x, e1) ↦ km c d (err x) j e1 h
]

lift-KeepsKey : {S A : Type 0} (k : Str) (r : Result A Error) → KeepsKey {S = S} k (lift r)
lift-KeepsKey k r c d x j e h = ground arith

store-KeepsKey : {S A : Type 0} (k : Str) (m : M S A) → KeepsKey k (total (on_store m))
store-KeepsKey k m c d r j e h = ground arith

module _ {S : Type 0} (db : Database S) (ctx : TaskContext) where
  persist-KeepsKey :
      (k name : Str) (value : Json)
      → str_eq k name ≡ false
      → KeepsKey k (persist_checkpoint db ctx name value)
  unfolding persist_checkpoint
  persist-KeepsKey k name value other c d r j e h =
      go
        (db.set_task_checkpoint_state ctx.queue_name ctx.task.task_id name value ctx.task.run_id
          c.store)
        refl
    where
      go :
          (p : Result (Json × Bool) SqlxError × S)
          → db.set_task_checkpoint_state ctx.queue_name ctx.task.task_id name value ctx.task.run_id
              c.store
            ≡ p
          → get k d.checkpoint_cache ≡ some j
      go (ok (state, w), t) q = ground (arith, get-insert k name state c.checkpoint_cache)
      go (err x, t) q = ground arith

  -- A key that is cached is not the name that is looked up and missed.
  other_key :
      (k name : Str) (m : JsonObject) {j : Json}
      → get k m ≡ some j
      → get name m ≡ none
      → str_eq k name ≡ false
  other_key k name m h miss = elim (Bool-cases (str_eq k name)) [
    | inl same ↦ let e = eq_of_str_eq k name same in cc
    | inr other ↦ other
  ]

  module _ {T : Type 0} (codec : Codec T) where
    execute-KeepsKey :
        (k name : Str) (body : Run (Cell S) T)
        → str_eq k name ≡ false
        → KeepsKey k body
        → KeepsKey k (execute_checkpoint db ctx codec name body)
    unfolding execute_checkpoint
    execute-KeepsKey k name body other kb = bind-KeepsKey k body _ kb λ v.
        bind-KeepsKey k (lift (encode codec v)) _ (lift-KeepsKey k _) λ j.
          bind-KeepsKey k (persist_checkpoint db ctx name j) _ (persist-KeepsKey k name j other)
            λ row. lift-KeepsKey k _

    -- A checkpoint leaves every committed checkpoint as it is, however it ends, if its body does.
    pub checkpoint-Keeps :
        (name : Str) (body : Run (Cell S) T)
        → Keeps body
        → (k : Str) (c d : Cell S) (r : Result T Error) (j : Json)
        → checkpoint db ctx codec name body c ≡ some (r, d)
        → get k c.checkpoint_cache ≡ some j
        → get k d.checkpoint_cache ≡ some j
    unfolding checkpoint
    checkpoint-Keeps name body kb k c d r j e h = go (get name c.checkpoint_cache) refl
      where
        go : (o : Option Json) → get name c.checkpoint_cache ≡ o → get k d.checkpoint_cache ≡ some j
        go (some state) hit = ground arith
        go none miss =
            execute-KeepsKey k name body (other_key k name c.checkpoint_cache h miss) (kb k) c d r j
              (ground arith) h

    -- A step leaves every committed checkpoint as it is, if its body does.
    pub step-Keeps :
        (name : Str) (body : Run (Cell S) T) → Keeps body → Keeps (step db ctx codec name body)
    unfolding step
    step-Keeps name body kb k =
        bind-KeepsKey k (lift (workflow_storage_name step_prefix name)) _ (lift-KeepsKey k _)
          λ storage. checkpoint-Keeps storage body kb k

    -- A keyed step leaves every committed checkpoint as it is, however it ends, if its body does.
    pub step_keyed-Keeps :
        (name key : Str) (body : Run (Cell S) T)
        → Keeps body
        → (k : Str) (c d : Cell S) (r : Result T Error) (j : Json)
        → step_keyed db ctx codec name key body c ≡ some (r, d)
        → get k c.checkpoint_cache ≡ some j
        → get k d.checkpoint_cache ≡ some j
    unfolding step_keyed
    step_keyed-Keeps name key body kb k =
        bind-KeepsKey k (lift (keyed_workflow_storage_name keyed_step_prefix name key)) _
          (lift-KeepsKey k _) λ storage. checkpoint-Keeps storage body kb k

  schedule-KeepsKey : (k : Str) (wake_at : Timestamp) → KeepsKey k (schedule_run db ctx wake_at)
  unfolding schedule_run
  schedule-KeepsKey k wake_at =
      bind-KeepsKey {A = Str} k
        (total (on_store (call_mapped (db.schedule_run ctx.queue_name ctx.task.run_id wake_at)))) _
        (store-KeepsKey k (call_mapped (db.schedule_run ctx.queue_name ctx.task.run_id wake_at)))
        λ o. lift-KeepsKey k (schedule_outcome o)

  module _ (calendar : Calendar) where
    commit_wake_time-KeepsKey :
        (k name : Str) (wake_at : Timestamp)
        → str_eq k name ≡ false
        → KeepsKey k (commit_wake_time db calendar ctx name wake_at)
    unfolding commit_wake_time
    commit_wake_time-KeepsKey k name wake_at other =
        bind-KeepsKey k (lift (encode calendar.timestamps wake_at)) _ (lift-KeepsKey k _) λ v.
          bind-KeepsKey k (persist_checkpoint db ctx name v) _ (persist-KeepsKey k name v other)
            λ row. lift-KeepsKey {A = Timestamp} k (decode calendar.timestamps row.0)

    wake_time-Keeps :
        (name : Str) (wake_at : Timestamp) → Keeps (wake_time db calendar ctx name wake_at)
    unfolding wake_time
    wake_time-Keeps name wake_at k c d r j e h = go (get name c.checkpoint_cache) refl
      where
        go : (o : Option Json) → get name c.checkpoint_cache ≡ o → get k d.checkpoint_cache ≡ some j
        go (some state) hit = ground arith
        go none miss =
            commit_wake_time-KeepsKey k name wake_at (other_key k name c.checkpoint_cache h miss) c
              d r j (ground arith) h

    -- A durable sleep leaves every committed checkpoint as it is, however it ends.
    pub sleep_until-Keeps :
        (sleep : Str) (wake_at : Timestamp) (k : Str) (c d : Cell S) (r : Result (Unit {0}) Error)
        (j : Json)
        → sleep_until db calendar ctx sleep wake_at c ≡ some (r, d)
        → get k c.checkpoint_cache ≡ some j
        → get k d.checkpoint_cache ≡ some j
    unfolding sleep_until
    sleep_until-Keeps sleep wake_at k =
        bind-KeepsKey k (lift (workflow_storage_name sleep_prefix sleep)) _ (lift-KeepsKey k _)
          λ name.
            bind-KeepsKey k (wake_time db calendar ctx name wake_at) _
              (wake_time-Keeps name wake_at k)
              λ actual.
                bind-KeepsKey k (schedule_run db ctx actual) _ (schedule-KeepsKey k actual)
                  λ o. lift-KeepsKey k (sleep_result o)
