-- ===== src/Examples/Names.antt =====
-- The theorems on names at concrete names.
use steda.Prelude.{◌+◌, ◌≤◌, ◌≡◌, ◌≢◌, arith, refl, [], ◌∷◌}
use steda.Text.{Str, codes, byte_len, trim, trim_start, is_whitespace, decimal, decimal_fuel}
use steda.Identifiers.{Uuid}
use steda.Names.{
  workflow_storage_name, keyed_workflow_storage_name, task_wait_name, step_prefix,
  keyed_step_prefix,
}
use steda.Names.Storage.{workflow_storage_name_faithful, task_wait_name-injective}
use steda.Names.Keyed.{keyed_workflow_storage_name_faithful}
use steda.Names.Disjoint.{storage_names_disjoint}
use steda.Examples.{some_task}

-- The two names whose plain concatenations with their keys are the same string.
two_keys_differ :
    keyed_workflow_storage_name keyed_step_prefix (codes "a") (codes "bc")
    ≢ keyed_workflow_storage_name keyed_step_prefix (codes "ab") (codes "c")
unfolding keyed_workflow_storage_name trim trim_start is_whitespace byte_len decimal decimal_fuel
two_keys_differ e = ground arith

workflow_storage_name_faithful_example :
    (byte_len (codes "$step:load") ≤ 1024) × (codes "load" ≡ codes "load")
unfolding workflow_storage_name trim trim_start is_whitespace byte_len
workflow_storage_name_faithful_example =
    workflow_storage_name_faithful step_prefix (codes "load") (codes "load")
      {s = codes "$step:load"} (omega arith) refl refl

-- A display of UUIDs at the width of four bytes.
abbrev display : Uuid → Str
display u = (0x10000 + u) ∷ []

task_wait_name-injective_example : (codes "orders" ≡ codes "orders") × (some_task ≡ some_task)
unfolding byte_len
task_wait_name-injective_example =
    task_wait_name-injective display 4 (λ u h. ground arith) (λ u v h k e. ground arith)
      (codes "orders") (codes "orders") some_task some_task (omega arith) (omega arith) refl

keyed_workflow_storage_name_faithful_example :
    (byte_len (codes "$step-keyed:1:abc") ≤ 1024)
    × (codes "a" ≡ codes "a")
    × (codes "bc" ≡ codes "bc")
unfolding keyed_workflow_storage_name trim trim_start is_whitespace byte_len decimal decimal_fuel
keyed_workflow_storage_name_faithful_example =
    keyed_workflow_storage_name_faithful keyed_step_prefix (codes "a") (codes "a") (codes "bc")
      (codes "bc") {s = codes "$step-keyed:1:abc"} (omega arith) refl refl

storage_names_disjoint_example :
    (codes "$step:load" ≢ codes "$step-keyed:1:abc")
    × (codes "$step:load" ≢ codes "$sleep:load")
    × (codes "$step-keyed:1:abc" ≢ codes "$sleep:load")
    × (codes "$step:load" ≢ task_wait_name display (codes "orders") some_task)
    × (codes "$step-keyed:1:abc" ≢ task_wait_name display (codes "orders") some_task)
    × (codes "$sleep:load" ≢ task_wait_name display (codes "orders") some_task)
unfolding workflow_storage_name keyed_workflow_storage_name trim trim_start is_whitespace byte_len
    decimal decimal_fuel
storage_names_disjoint_example =
    storage_names_disjoint display (codes "load") (codes "a") (codes "bc") (codes "load")
      (codes "orders") some_task {s = codes "$step:load"} {k = codes "$step-keyed:1:abc"}
      {z = codes "$sleep:load"} refl refl refl
