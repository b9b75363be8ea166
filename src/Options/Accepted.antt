-- ===== src/Options/Accepted.antt =====
-- Exactly which spawn configurations are accepted.
use steda.Prelude.{◌↔◌}
use steda.Duration.{Duration}
use steda.Json.{empty, Json, F64}
use steda.Error.{>>=-Succeeds, >>=-eq-ok, Succeeds, ok}
use steda.Types.{SpawnConfig}
use steda.Options.{
  nonempty_headers, normalize_spawn_options, attempts_json, validate_spawn_options,
  insert_cancellation, insert_some, retry_strategy_json,
}
use steda.Options.Stages.{
  IsValidConfig, insert_attempts-Succeeds_iff, insert_retry-Succeeds_iff,
  insert_cancellation-Succeeds_iff, validate_options_iff, valid_attempts_nonzero,
  insert_plain-Succeeds,
}

-- A spawn configuration is turned into a payload exactly when it is valid: the attempts lie between
-- 1 and the largest i32, every retry delay is at most 2147483647 seconds as a float and the factor
-- finite and positive, every cancellation limit rounds up to at most the largest i64, and the
-- idempotency key is not blank and has at most 1024 bytes.
pub normalize_spawn_options-Succeeds_iff :
    (as_secs_f64 : Duration → F64) (c : SpawnConfig)
    → Succeeds (normalize_spawn_options as_secs_f64 c) ↔ IsValidConfig as_secs_f64 c
unfolding normalize_spawn_options
normalize_spawn_options-Succeeds_iff as_secs_f64 c = (
  λ (q, e).
      let (_, e0, h) = >>=-eq-ok (validate_spawn_options as_secs_f64 c) _ e in
      let (p1, e1, h) =
        >>=-eq-ok
          (insert_some "headers" (λ m. ok (Json.object m)) (nonempty_headers c.headers) empty) _
          h in
      let (p2, e2, h) = >>=-eq-ok (insert_some "maxAttempts" attempts_json c.max_attempts p1) _ h in
      let (p3, e3, h) =
        >>=-eq-ok
          (insert_some "retryStrategy" (retry_strategy_json as_secs_f64) c.retry_strategy p2) _ h in
      let (p4, e4, h) = >>=-eq-ok (insert_cancellation c.cancellation p3) _ h in
      record {
        attempts = (insert_attempts-Succeeds_iff c.max_attempts p1).0 (p2, e2);
        retry = (insert_retry-Succeeds_iff as_secs_f64 c.retry_strategy p2).0 (p3, e3);
        cancellation = (insert_cancellation-Succeeds_iff c.cancellation p3).0 (p4, e4);
        key = ((validate_options_iff as_secs_f64 c).0 e0).2;
      },
  λ v.
      let e0 =
        (validate_options_iff as_secs_f64 c).1
          (valid_attempts_nonzero c.max_attempts v.attempts, v.retry, v.key) in
      let (p1, e1) =
        insert_plain-Succeeds "headers" Json.object (nonempty_headers c.headers) empty in
      let (p2, e2) = (insert_attempts-Succeeds_iff c.max_attempts p1).1 v.attempts in
      let (p3, e3) = (insert_retry-Succeeds_iff as_secs_f64 c.retry_strategy p2).1 v.retry in
      let (p4, e4) = (insert_cancellation-Succeeds_iff c.cancellation p3).1 v.cancellation in
      >>=-Succeeds _ _ tt e0 (
        >>=-Succeeds _ _ p1 e1 (
          >>=-Succeeds _ _ p2 e2 (
            >>=-Succeeds _ _ p3 e3 (
              >>=-Succeeds _ _ p4 e4
                (insert_plain-Succeeds "idempotencyKey" Json.string c.idempotency_key p4))))),
)
