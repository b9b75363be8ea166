-- ===== src/Options.antt =====
-- src/queue.rs and src/db.rs: the checks and conversions of values that cross into the database.
-- `as_secs_f64` is the standard library's conversion of a duration to the nearest float.
pub mod Seconds
pub mod Stages
pub mod Accepted
pub mod Payload
use Prim.Native.String.{String}
use steda.Prelude.{
  ℕ, ◌+◌, ◌≤◌, ◌<◌, Bool, true, false, not, ◌||◌, Option, none, some, List, [], ◌∷◌, if◌then◌else◌,
  ltb, leb, ◌==◌, is_empty,
}
use steda.Text.{Str, codes, byte_len, trim}
use steda.Duration.{Duration}
use steda.Json.{
  F64, is_finite, is_nonpositive, Number, Json, JsonObject, empty, insert, has_no_entry,
}
use steda.Error.{Error, Result, ok, err, literal, format, Argument, fail_if, map_err, ◌>>=◌, ◌>>◌}
use steda.Types.{RetryStrategy, CancellationPolicy, SpawnConfig}

abbrev pub i32_max : ℕ
i32_max = 2_147_483_647

abbrev pub i64_max : ℕ
i64_max = 9_223_372_036_854_775_807

abbrev pub u64_max : ℕ
u64_max = 18_446_744_073_709_551_615

-- `as_secs()` plus one where there is a fraction, before the overflow check.
abbrev pub rounded_up : Duration → ℕ
rounded_up d = d.secs + (if ltb 0 d.subsec_nanos then 1 else 0)

unfoldable pub duration_seconds : Duration → Result ℕ Error
duration_seconds d =
    if ltb u64_max (rounded_up d)
    then err (Error.invalid_options (literal "duration is too large to represent"))
    else if ltb i32_max (rounded_up d)
    then err (
        Error.invalid_options
          (format "duration must round to at most {} seconds" (Argument.number i32_max ∷ [])))
    else ok (rounded_up d)

unfoldable pub duration_seconds_i64 : Duration → String → Result ℕ Error
duration_seconds_i64 d label =
    if ltb u64_max (rounded_up d)
    then err (
        Error.invalid_options
          (format "{label} is too large to represent" (Argument.display (codes label) ∷ [])))
    else if ltb i64_max (rounded_up d)
    then err (
        Error.invalid_options (
          format "{label} must round to at most {} seconds"
            (Argument.display (codes label) ∷ Argument.number i64_max ∷ [])))
    else ok (rounded_up d)

unfoldable pub database_positive_i32 : ℕ → String → Result ℕ Error
database_positive_i32 value label =
    if value == 0
    then err (
        Error.invalid_options
          (format "{label} must be at least 1" (Argument.display (codes label) ∷ [])))
    else if ltb i32_max value
    then err (
        Error.invalid_options (
          format "{label} must be at most {}"
            (Argument.display (codes label) ∷ Argument.number i32_max ∷ [])))
    else ok value

-- The pattern of 2147483647.0.
abbrev pub max_database_delay_seconds : F64
max_database_delay_seconds = 0x41DF_FFFF_FFC0_0000

abbrev pub max_idempotency_key_bytes : ℕ
max_idempotency_key_bytes = 1024

-- `Option::map(f).transpose()`.
abbrev pub transpose_map {ℓ κ} :
    {A : Type ℓ} {B : Type κ} → (A → Result B Error) → Option A → Result (Option B) Error
transpose_map f none = ok none
transpose_map f (some a) = f a >>= λ b. ok (some b)

-- `if let Some(a) = option { f(a)? }`.
abbrev pub if_some {ℓ} :
    {A : Type ℓ} → (A → Result (Unit {0}) Error) → Option A → Result (Unit {0}) Error
if_some f none = ok tt
if_some f (some a) = f a

-- The same around an insertion into `payload`.
abbrev pub insert_some {ℓ} :
    {A : Type ℓ}
    → String
    → (A → Result Json Error)
    → Option A
    → JsonObject
    → Result JsonObject Error
insert_some key f none payload = ok payload
insert_some key f (some a) payload = f a >>= λ v. ok (insert (codes key) v payload)

abbrev integer : ℕ → Json
integer n = Json.number (Number.pos_int n)

abbrev pub limit_json : String → Duration → Result Json Error
limit_json label d = duration_seconds_i64 d label >>= λ n. ok (integer n)

abbrev pub attempts_json : ℕ → Result Json Error
attempts_json n = database_positive_i32 n "max_attempts" >>= λ v. ok (integer v)

unfoldable pub validate_idempotency_key : Str → Result (Unit {0}) Error
validate_idempotency_key key =
    if is_empty (trim key)
    then err (Error.invalid_options (literal "idempotency_key must not be empty"))
    else if ltb max_idempotency_key_bytes (byte_len key)
    then err (
        Error.invalid_options (
          format "idempotency_key must be at most {} bytes"
            (Argument.number max_idempotency_key_bytes ∷ [])))
    else ok tt

-- `matches!(max_attempts, Some(0))`.
abbrev pub is_some_zero : Option ℕ → Bool
is_some_zero none = false
is_some_zero (some n) = n == 0

-- The filter on headers: an empty map counts as none.
abbrev pub nonempty_headers : Option JsonObject → Option JsonObject
nonempty_headers none = none
nonempty_headers (some m) = if has_no_entry m then none else some m

unfoldable pub cancellation_object : CancellationPolicy → Result JsonObject Error
cancellation_object policy = do
  value ←
      insert_some "maxDuration" (limit_json "cancellation max_duration") policy.max_duration empty
  insert_some "maxDelay" (limit_json "cancellation max_delay") policy.max_delay value

-- `if let Some(cancellation) = ...`, which inserts no empty object.
unfoldable pub insert_cancellation :
    Option CancellationPolicy → JsonObject → Result JsonObject Error
insert_cancellation none payload = ok payload
insert_cancellation (some policy) payload = do
  value ← cancellation_object policy
  ok (
      if has_no_entry value
      then payload
      else insert (codes "cancellation") (Json.object value) payload)

module _ (as_secs_f64 : Duration → F64) where
  -- Patterns of nonnegative floats are ordered as the floats are.
  unfoldable pub validate_retry_delay : Duration → String → Result (Unit {0}) Error
  validate_retry_delay delay label =
      if ltb max_database_delay_seconds (as_secs_f64 delay)
      then err (
          Error.invalid_options (
            format "{label} must be at most {} seconds"
              (Argument.display (codes label) ∷ Argument.number i32_max ∷ [])))
      else ok tt

  unfoldable pub validate_retry_strategy : RetryStrategy → Result (Unit {0}) Error
  unfolding validate_retry_delay
  validate_retry_strategy (RetryStrategy.fixed delay) = validate_retry_delay delay "retry delay"
  validate_retry_strategy (RetryStrategy.exponential initial_delay factor max_delay) = do
    validate_retry_delay initial_delay "retry initial delay"
    fail_if (not (is_finite factor) || is_nonpositive factor)
        (Error.invalid_options (literal "retry factor must be finite and greater than zero"))
    if_some (λ d. validate_retry_delay d "retry maximum delay") max_delay
  validate_retry_strategy RetryStrategy.never = ok tt

  abbrev seconds : Duration → Json
  seconds d = Json.number (Number.float (as_secs_f64 d))

  abbrev kind : String → JsonObject
  kind k = insert (codes "kind") (Json.string (codes k)) empty

  abbrev insert_max_delay : Option Duration → JsonObject → JsonObject
  insert_max_delay none m = m
  insert_max_delay (some d) m = insert (codes "maxSeconds") (seconds d) m

  -- The object that a valid strategy is stored as.
  unfoldable pub strategy_object : RetryStrategy → JsonObject
  strategy_object (RetryStrategy.fixed delay) =
      insert (codes "baseSeconds") (seconds delay) (kind "fixed")
  strategy_object (RetryStrategy.exponential initial_delay factor max_delay) =
      insert_max_delay max_delay (
        insert (codes "factor") (Json.number (Number.float factor))
          (insert (codes "baseSeconds") (seconds initial_delay) (kind "exponential")))
  strategy_object RetryStrategy.never = kind "none"

  unfoldable pub retry_strategy_json : RetryStrategy → Result Json Error
  retry_strategy_json strategy = do
    validate_retry_strategy strategy
    ok (Json.object (strategy_object strategy))

  unfoldable pub validate_spawn_options : SpawnConfig → Result (Unit {0}) Error
  validate_spawn_options options = do
    fail_if (is_some_zero options.max_attempts)
        (Error.invalid_options (literal "max_attempts must be at least 1"))
    if_some validate_retry_strategy options.retry_strategy
    if_some validate_idempotency_key options.idempotency_key

  unfoldable pub normalize_spawn_options : SpawnConfig → Result JsonObject Error
  normalize_spawn_options options = do
    validate_spawn_options options
    p ← insert_some "headers" (λ m. ok (Json.object m)) (nonempty_headers options.headers) empty
    p ← insert_some "maxAttempts" attempts_json options.max_attempts p
    p ← insert_some "retryStrategy" retry_strategy_json options.retry_strategy p
    p ← insert_cancellation options.cancellation p
    insert_some "idempotencyKey" (λ k. ok (Json.string k)) options.idempotency_key p
