-- ===== src/Examples/Handles.antt =====
-- The theorems on task handles, in the small world of the examples.
use steda.Prelude.{◌≡◌, refl, arith}
use steda.Text.{codes}
use steda.Error.{Error, err}
use steda.Handle.{TaskHandle, cancel, retry}
use steda.Handle.Fencing.{mismatch_fails}
use steda.Examples.{some_task, test_database, idle, running_row}

-- The database's row has the name charge.
abbrev refund : TaskHandle
refund = record {
  queue = codes "orders";
  task_ref = record {
    queue_name = codes "orders";
    task_name = codes "refund";
    task_id = some_task;
  };
}

abbrev charge : TaskHandle
charge = record {
  queue = codes "orders";
  task_ref = record {
    queue_name = codes "orders";
    task_name = codes "charge";
    task_id = some_task;
  };
}

mismatch_fails_example :
    (cancel test_database refund idle ≡ (
      err (Error.task_name_mismatch some_task (codes "refund") (codes "charge")),
      record idle { queries = 1 },
    ))
    × (retry test_database refund idle ≡ (
      err (Error.task_name_mismatch some_task (codes "refund") (codes "charge")),
      record idle { queries = 1 },
    ))
mismatch_fails_example =
    mismatch_fails test_database refund idle (record idle { queries = 1 }) running_row refl
      (λ e. ground arith)
