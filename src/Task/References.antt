-- ===== src/Task/References.antt =====
-- Durable references survive serialization, and nothing invalid is read back.
use steda.Prelude.{◌≡◌, ◌≤◌, false, arith}
use steda.Text.{byte_len}
use steda.Text.Blank.{is_blank}
use steda.Json.{Json}
use steda.Error.{Error, map_err-eq-ok, map_err-eq-ok, ok, >>=-eq-ok}
use steda.Names.{validate_task_name, validate_queue_name}
use steda.Names.Valid.{validate_queue_name_lem, validate_task_name_iff, validate_queue_name-ok}
use steda.Task.{serialize, Codec, decode, TaskRef, TaskRefWire, deserialize}

-- The names of a reference are acceptable to storage.
pub record IsValidRef (r : TaskRef) : Type 0 where
  pub task_visible : is_blank r.task_name ≡ false
  pub task_fits : byte_len r.task_name ≤ 1024
  pub queue_visible : is_blank r.queue_name ≡ false
  pub queue_fits : byte_len r.queue_name ≤ 33

-- The wire form is read back as it was written.
abbrev pub IsFaithful : {T : Type 0} → Codec T → Type 0
IsFaithful {T} codec = (v : T) (j : Json) → codec.to_value v ≡ ok j → codec.from_value j ≡ ok v

-- What deserialization accepts has valid names.
pub deserialize-IsValidRef :
    (wire_codec : Codec TaskRefWire) (j : Json) (r : TaskRef)
    → deserialize wire_codec j ≡ ok r
    → IsValidRef r
unfolding deserialize
deserialize-IsValidRef wire_codec j r e =
    let (wire, e1, h) = >>=-eq-ok (decode wire_codec j) _ e in
    let (_, e2, h) = >>=-eq-ok (validate_task_name wire.task_name) _ h in
    let (q, e3, h) = >>=-eq-ok (validate_queue_name wire.queue_name) _ h in
    let t = (validate_task_name_iff wire.task_name).0 e2 in
    let (same, v, f) = validate_queue_name-ok wire.queue_name e3 in ground (arith, same)

-- A reference with valid names that was serialized by a faithful codec is read back unchanged.
pub deserialize-serialize :
    (wire_codec : Codec TaskRefWire) (r : TaskRef) (j : Json)
    → IsFaithful wire_codec
    → IsValidRef r
    → serialize wire_codec r ≡ ok j
    → deserialize wire_codec j ≡ ok r
unfolding serialize deserialize
deserialize-serialize wire_codec r j faithful v e =
    let wire : TaskRefWire = record {
      queue_name = r.queue_name;
      task_name = r.task_name;
      task_id = r.task_id;
    } in
    let back = faithful wire j (map_err-eq-ok Error.serialization (wire_codec.to_value wire) e) in
    let t = (validate_task_name_iff r.task_name).1 (v.task_visible, v.task_fits) in
    ground (arith, back, t, validate_queue_name_lem r.queue_name)
