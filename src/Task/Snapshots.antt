-- ===== src/Task/Snapshots.antt =====
-- What typed snapshots and results say of the persisted ones.
use steda.Prelude.{refl, ◌≡◌, ◌≢◌, true, arith}
use steda.Error.{Error, ok, err, Message}
use steda.Types.{TaskState, TaskResultSnapshot, is_terminal}
use steda.Task.{
  decode, Codec, TaskSnapshot, state, is_terminal_snapshot, decode_snapshot, decode_result,
}
use steda.Json.{Json, Json}

-- The state that a persisted snapshot shows.
abbrev pub raw_state : TaskResultSnapshot → TaskState
raw_state TaskResultSnapshot.pending = TaskState.pending
raw_state TaskResultSnapshot.running = TaskState.running
raw_state TaskResultSnapshot.sleeping = TaskState.sleeping
raw_state (TaskResultSnapshot.completed _) = TaskState.completed
raw_state (TaskResultSnapshot.failed _) = TaskState.failed
raw_state TaskResultSnapshot.cancelled = TaskState.cancelled

module _ {T : Type 0} (codec : Codec T) where
  -- A decoded snapshot has the state of the persisted one, and is terminal exactly when that is.
  pub decode_snapshot-state :
      (raw : TaskResultSnapshot) (s : TaskSnapshot T)
      → decode_snapshot codec raw ≡ ok s
      → (state s ≡ raw_state raw) × (is_terminal_snapshot s ≡ is_terminal raw)
  unfolding decode_snapshot state is_terminal_snapshot
  decode_snapshot-state raw s e = ground arith

  -- A result is the decoded output of a completion, and of nothing else.
  pub decode_result-ok :
      (raw : TaskResultSnapshot) (v : T)
      → decode_result codec raw ≡ ok v
      → (j : Json) × (raw ≡ TaskResultSnapshot.completed j) × (decode codec j ≡ ok v)
  unfolding decode_result
  decode_result-ok TaskResultSnapshot.pending v e = cc
  decode_result-ok TaskResultSnapshot.running v e = cc
  decode_result-ok TaskResultSnapshot.sleeping v e = cc
  decode_result-ok (TaskResultSnapshot.completed j) v e = (j, refl, e)
  decode_result-ok (TaskResultSnapshot.failed j) v e = cc
  decode_result-ok TaskResultSnapshot.cancelled v e = cc

  -- The error kept for a snapshot that is not terminal does not arise from one that is.
  pub decode_result-terminal :
      (raw : TaskResultSnapshot) (m : Message)
      → is_terminal raw ≡ true
      → decode_result codec raw ≢ err (Error.other m)
  unfolding decode_result
  decode_result-terminal raw m h e = ground arith
