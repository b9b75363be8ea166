-- ===== src/Identifiers.antt =====
-- src/types.rs: the identifiers of tasks and runs, which are distinct wrappers of a UUID.
use steda.Prelude.{ℕ, ◌<◌, ◌^◌}

-- A 128-bit UUID, as a number.
abbrev pub Uuid : Type 0
Uuid = ℕ

abbrev pub IsUuid : Uuid → Type 0
IsUuid u = u < 2 ^ 128

pub record TaskId : Type 0 where
  pub into_uuid : Uuid

pub record RunId : Type 0 where
  pub into_uuid : Uuid
