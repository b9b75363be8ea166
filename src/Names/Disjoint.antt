-- ===== src/Names/Disjoint.antt =====
-- The four kinds of checkpoint never share a storage name.
use steda.Prelude.{ℕ, zero, suc, ◌≡◌, ◌≢◌, refl, sym, ap, ◌∙◌, arith, [], ◌∷◌, ◌++◌}
use steda.Text.{Str}
use steda.Identifiers.{TaskId, Uuid}
use steda.Error.{ok}
use steda.Names.{
  step_prefix, keyed_step_prefix, sleep_prefix, task_wait_prefix, keyed_identity,
  workflow_storage_name, keyed_workflow_storage_name, task_wait_name,
}
use steda.Names.Storage.{workflow_storage_name-ok}
use steda.Names.Keyed.{keyed_workflow_storage_name-ok}

-- The scalar value at a position; 0 past the end.
abbrev char_at : ℕ → Str → ℕ
char_at n [] = 0
char_at zero (c ∷ s) = c
char_at (suc n) (c ∷ s) = char_at n s

-- Strings that differ at a position differ.
differ_at : (n : ℕ) {s t : Str} → char_at n s ≢ char_at n t → s ≢ t
differ_at n d e = d (ap (char_at n) e)

abbrev wait_tail : (Uuid → Str) → Str → TaskId → Str
wait_tail display_uuid queue task = queue ++ (58 ∷ display_uuid task.into_uuid)

task_wait_name_lem :
    (display_uuid : Uuid → Str) (queue : Str) (task : TaskId)
    → task_wait_name display_uuid queue task ≡ task_wait_prefix ++ wait_tail display_uuid queue task
unfolding task_wait_name
task_wait_name_lem display_uuid queue task = refl

-- The names of a step, a keyed step, a sleep and a task wait are pairwise different, whatever the
-- workflow calls them.
pub storage_names_disjoint :
    (display_uuid : Uuid → Str) (step name key sleep queue : Str) (task : TaskId) {s k z : Str}
    → workflow_storage_name step_prefix step ≡ ok s
    → keyed_workflow_storage_name keyed_step_prefix name key ≡ ok k
    → workflow_storage_name sleep_prefix sleep ≡ ok z
    → (s ≢ k)
      × (s ≢ z)
      × (k ≢ z)
      × (s ≢ task_wait_name display_uuid queue task)
      × (k ≢ task_wait_name display_uuid queue task)
      × (z ≢ task_wait_name display_uuid queue task)
storage_names_disjoint display_uuid step name key sleep queue task hs hk hz =
    let s = (workflow_storage_name-ok step_prefix step hs).0 in
    let k = (keyed_workflow_storage_name-ok keyed_step_prefix name key hk).0 in
    let z = (workflow_storage_name-ok sleep_prefix sleep hz).0 in
    let w = task_wait_name_lem display_uuid queue task in
    (
      λ e.
          differ_at 5 {s = step_prefix ++ step} {t = keyed_step_prefix ++ keyed_identity name key}
            (omega arith) (sym s ∙ e ∙ k),
      λ e.
          differ_at 2 {s = step_prefix ++ step} {t = sleep_prefix ++ sleep} (omega arith)
            (sym s ∙ e ∙ z),
      λ e.
          differ_at 2 {s = keyed_step_prefix ++ keyed_identity name key} {t = sleep_prefix ++ sleep}
            (omega arith) (sym k ∙ e ∙ z),
      λ e.
          differ_at 1 {s = step_prefix ++ step}
            {t = task_wait_prefix ++ wait_tail display_uuid queue task} (omega arith)
            (sym s ∙ e ∙ w),
      λ e.
          differ_at 1 {s = keyed_step_prefix ++ keyed_identity name key}
            {t = task_wait_prefix ++ wait_tail display_uuid queue task} (omega arith)
            (sym k ∙ e ∙ w),
      λ e.
          differ_at 1 {s = sleep_prefix ++ sleep}
            {t = task_wait_prefix ++ wait_tail display_uuid queue task} (omega arith)
            (sym z ∙ e ∙ w),
    )
