-- ===== src/Examples/Tasks.antt =====
-- The theorems on references, snapshots and rows at concrete ones.
use steda.Prelude.{◌≡◌, arith, refl, [], ◌∷◌, some, pos}
use steda.Text.{Str, codes, byte_len, is_whitespace}
use steda.Json.{Json, Number, empty, entry}
use steda.Error.{Result, ok, err}
use steda.World.{ClaimedRow}
use steda.Task.{Codec, TaskRef, TaskRefWire, serialize, deserialize}
use steda.Task.References.{IsFaithful, IsValidRef, deserialize-serialize}
use steda.Db.{claimed_tasks_from_rows, claimed_task_from_row, headers_from_column}
use steda.Db.Rows.{Decodes, claimed_tasks_from_rows-Decodes}
use steda.Examples.{some_task, some_run, charge_task}

abbrev write_wire : TaskRefWire → Json
write_wire w = Json.object (
    entry (codes "queue_name") (Json.string w.queue_name) (
      entry (codes "task_name") (Json.string w.task_name)
        (entry (codes "task_id") (Json.number (Number.pos_int w.task_id.into_uuid)) empty)))

-- The three entries in their order, as an object is written.
abbrev read_wire : Json → Result TaskRefWire Str
read_wire
      (Json.object (
        entry _
          (Json.string q)
          (entry _ (Json.string n) (entry _ (Json.number (Number.pos_int i)) empty)))) =
    ok (record { queue_name = q; task_name = n; task_id = record { into_uuid = i } })
read_wire _ = err (codes "invalid type")

abbrev wire_codec : Codec TaskRefWire
wire_codec = record { to_value = λ w. ok (write_wire w); from_value = read_wire }

wire_codec-IsFaithful : IsFaithful wire_codec
wire_codec-IsFaithful v j e = ground arith

abbrev charge_ref : TaskRef
charge_ref = record { queue_name = codes "orders"; task_name = codes "charge"; task_id = some_task }

abbrev charge_wire : Json
charge_wire =
    write_wire
      (record { queue_name = codes "orders"; task_name = codes "charge"; task_id = some_task })

charge_ref-IsValidRef : IsValidRef charge_ref
unfolding is_whitespace byte_len
charge_ref-IsValidRef = record {
  task_visible = refl;
  task_fits = omega arith;
  queue_visible = refl;
  queue_fits = omega arith;
}

deserialize-serialize_example : deserialize wire_codec charge_wire ≡ ok charge_ref
unfolding serialize
deserialize-serialize_example =
    deserialize-serialize wire_codec charge_ref charge_wire wire_codec-IsFaithful
      charge_ref-IsValidRef refl

abbrev charge_row : ClaimedRow
charge_row = record {
  run_id = some_run;
  task_id = some_task;
  attempt = pos 1;
  task_name = codes "charge";
  params = Json.null;
  headers = some Json.null;
}

claimed_tasks_from_rows-Decodes_example : Decodes (charge_row ∷ []) (charge_task ∷ [])
unfolding claimed_tasks_from_rows claimed_task_from_row headers_from_column
claimed_tasks_from_rows-Decodes_example =
    claimed_tasks_from_rows-Decodes (charge_row ∷ []) (charge_task ∷ []) refl
