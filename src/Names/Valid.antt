-- ===== src/Names/Valid.antt =====
-- Exactly which task and queue names pass validation.
use steda.Prelude.{◌≤◌, ◌≡◌, ◌↔◌, false, arith, ltb, if◌then◌else◌}
use steda.Text.{Str, byte_len}
use steda.Text.Blank.{is_blank, is_empty-trim}
use steda.Error.{Error, ok, err}
use steda.Names.{validate_task_name, validate_queue_name}

-- A task name passes exactly when some character of it is no white space and it has at most 1024
-- bytes in UTF-8.
pub validate_task_name_iff :
    (name : Str)
    → (validate_task_name name ≡ ok tt) ↔ ((is_blank name ≡ false) × (byte_len name ≤ 1024))
unfolding validate_task_name
validate_task_name_iff name =
    (λ h. ground (arith, is_empty-trim name), λ h. ground (arith, is_empty-trim name))

-- A queue name is refused as missing exactly when it is blank, refused as too long, with the name
-- and the limit, exactly when it is not blank and has more than 33 bytes, and is otherwise
-- returned unchanged.
pub validate_queue_name_lem :
    (name : Str)
    → validate_queue_name name ≡ (
        if is_blank name
        then err Error.missing_queue_name
        else if ltb 33 (byte_len name)
        then err (Error.queue_name_too_long name 33)
        else ok name)
unfolding validate_queue_name
validate_queue_name_lem name = ground (arith, is_empty-trim name)

-- What a validated queue name is.
pub validate_queue_name-ok :
    (name : Str) {s : Str}
    → validate_queue_name name ≡ ok s
    → (s ≡ name) × (is_blank name ≡ false) × (byte_len name ≤ 33)
unfolding validate_queue_name
validate_queue_name-ok name h = ground (arith, is_empty-trim name)
