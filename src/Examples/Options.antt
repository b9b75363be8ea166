-- ===== src/Examples/Options.antt =====
-- The theorems on spawn options and on metrics at concrete configurations and histories.
use steda.Prelude.{ℕ, ◌≡◌, ◌↔◌, arith, refl, List, [], ◌∷◌, some, ◌*◌}
use steda.Text.{codes, str_eq}
use steda.Duration.{Duration}
use steda.Json.{F64, Json, JsonObject, Number, empty, entry, get, insert}
use steda.Error.{Succeeds}
use steda.Types.{SpawnConfig, default_config, new_cancellation_policy, with_max_delay}
use steda.Options.{
  duration_seconds_i64, normalize_spawn_options, validate_spawn_options, database_positive_i32,
  insert_cancellation, cancellation_object,
}
use steda.Options.Stages.{IsValidConfig}
use steda.Options.Accepted.{normalize_spawn_options-Succeeds_iff}
use steda.Options.Payload.{stored_option, normalize_spawn_options-get}
use steda.Metrics.{completed, new}
use steda.Metrics.Accounting.{
  End, finishes, drops, execute_all, Counted, execute_all-Counted, Event, ends, claims, observe_all,
  Grows, IsU64, observe_all-Grows,
}

-- One second and a bit.
abbrev over_a_second : Duration
over_a_second = record { secs = 1; subsec_nanos = 1 }

-- Whole seconds up to 1, as the patterns of their floats.
abbrev pub test_as_secs_f64 : Duration → F64
test_as_secs_f64 d = d.secs * 0x3FF0_0000_0000_0000

abbrev pub three_attempts : SpawnConfig
three_attempts = record default_config {
  max_attempts = some 3;
  cancellation = some (with_max_delay new_cancellation_policy over_a_second);
}

normalize_spawn_options-Succeeds_iff_example :
    Succeeds (normalize_spawn_options test_as_secs_f64 three_attempts)
    ↔ IsValidConfig test_as_secs_f64 three_attempts
normalize_spawn_options-Succeeds_iff_example =
    normalize_spawn_options-Succeeds_iff test_as_secs_f64 three_attempts

abbrev three_attempts_payload : JsonObject
three_attempts_payload = entry (codes "maxAttempts") (Json.number (Number.pos_int 3)) (
    entry (codes "cancellation")
      (Json.object (entry (codes "maxDelay") (Json.number (Number.pos_int 2)) empty)) empty)

normalize_spawn_options-get_example :
    get (codes "maxAttempts") three_attempts_payload
    ≡ stored_option test_as_secs_f64 three_attempts (codes "maxAttempts")
unfolding normalize_spawn_options validate_spawn_options database_positive_i32 insert_cancellation
    cancellation_object duration_seconds_i64 insert str_eq
normalize_spawn_options-get_example =
    normalize_spawn_options-get test_as_secs_f64 three_attempts {q = three_attempts_payload}
      (codes "maxAttempts") refl

abbrev two_executions : List (End × ℕ)
two_executions = (finishes completed, 5) ∷ (drops, 7) ∷ []

execute_all-Counted_example : Counted new two_executions (execute_all two_executions new)
execute_all-Counted_example = execute_all-Counted two_executions (omega arith)

new-IsU64 : IsU64 new
unfolding new
new-IsU64 = omega arith

abbrev some_events : List Event
some_events = claims 2 ∷ ends (finishes completed) 5 ∷ ends drops 7 ∷ []

observe_all-Grows_example :
    Grows new (observe_all some_events new) × IsU64 (observe_all some_events new)
observe_all-Grows_example = observe_all-Grows new some_events new-IsU64
