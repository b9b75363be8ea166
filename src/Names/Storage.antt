-- ===== src/Names/Storage.antt =====
-- Storage names fit the 1024-byte limit of the database, and give back what they name.
use steda.Prelude.{ℕ, ◌≤◌, ◌-◌, ◌≡◌, sym, ap, ◌∙◌, false, arith, [], ◌∷◌, ◌++◌}
use steda.Text.{Str, byte_len}
use steda.Text.Blank.{is_blank, is_empty-trim}
use steda.Text.Equality.{byte_len-append, append_cancel, append_cancel_left}
use steda.Identifiers.{TaskId, Uuid, IsUuid}
use steda.Error.{ok}
use steda.Names.{workflow_storage_name, task_wait_name, task_wait_prefix}

-- What a successful call returns, and when it succeeds.
pub workflow_storage_name-ok :
    (prefix name : Str) {s : Str}
    → workflow_storage_name prefix name ≡ ok s
    → (s ≡ prefix ++ name) × (is_blank name ≡ false) × (byte_len name ≤ 1024 - byte_len prefix)
unfolding workflow_storage_name
workflow_storage_name-ok prefix name h = ground (arith, is_empty-trim name)

-- For a prefix within the limit, a storage name that is returned has at most 1024 bytes, and two
-- names of a workflow that get the same storage name are the same name.
pub workflow_storage_name_faithful :
    (prefix name name' : Str) {s : Str}
    → byte_len prefix ≤ 1024
    → workflow_storage_name prefix name ≡ ok s
    → workflow_storage_name prefix name' ≡ ok s
    → (byte_len s ≤ 1024) × (name ≡ name')
workflow_storage_name_faithful prefix name name' fits h h' =
    let a = workflow_storage_name-ok prefix name h in
    let b = workflow_storage_name-ok prefix name' h' in
    (
      omega (arith, ap byte_len a.0, byte_len-append prefix name),
      append_cancel_left prefix name name' (sym a.0 ∙ b.0),
    )

-- Where 128-bit UUIDs are displayed without loss and at one width, the name of a wait determines the queue
-- and the task waited for.
pub task_wait_name-injective :
    (display_uuid : Uuid → Str) (width : ℕ)
    → ((u : Uuid) → IsUuid u → byte_len (display_uuid u) ≡ width)
    → ((u v : Uuid) → IsUuid u → IsUuid v → display_uuid u ≡ display_uuid v → u ≡ v)
    → (q q' : Str) (t t' : TaskId) → IsUuid t.into_uuid
    → IsUuid t'.into_uuid
    → task_wait_name display_uuid q t ≡ task_wait_name display_uuid q' t'
    → (q ≡ q') × (t ≡ t')
unfolding task_wait_name byte_len
task_wait_name-injective display_uuid width same_width injective q q' t t' v v' e =
    (split.0, ground (arith, injective t.into_uuid t'.into_uuid v v' tail))
  where
    inner : q ++ (58 ∷ display_uuid t.into_uuid) ≡ q' ++ (58 ∷ display_uuid t'.into_uuid)
    inner = append_cancel_left task_wait_prefix _ _ e

    split : (q ≡ q') × (58 ∷ display_uuid t.into_uuid ≡ 58 ∷ display_uuid t'.into_uuid)
    split = append_cancel q q' _ _ inner (
        omega (
          arith,
          ap byte_len inner,
          byte_len-append q (58 ∷ display_uuid t.into_uuid),
          byte_len-append q' (58 ∷ display_uuid t'.into_uuid),
          same_width t.into_uuid v,
          same_width t'.into_uuid v',
        ))

    tail : display_uuid t.into_uuid ≡ display_uuid t'.into_uuid
    tail = append_cancel_left (58 ∷ []) _ _ split.1
