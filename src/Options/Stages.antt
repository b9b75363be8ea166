-- ===== src/Options/Stages.antt =====
-- What a valid spawn configuration is, and when each stage of its conversion succeeds.
use steda.Prelude.{ℕ, ◌≤◌, ◌≡◌, refl, ◌↔◌, true, false, Option, none, some, arith}
use steda.Text.{Str, byte_len}
use steda.Text.Blank.{is_blank, is_empty-trim}
use steda.Duration.{Duration}
use steda.Json.{Number, empty, JsonObject, Json, F64, is_finite, is_nonpositive}
use steda.Error.{◌>>◌, fail_if, literal, >>=-Succeeds, Error, >>=-eq-ok, Succeeds, Result, ok}
use steda.Types.{RetryStrategy, CancellationPolicy, SpawnConfig}
use steda.Options.{
  is_some_zero, limit_json, attempts_json, is_some_zero, validate_spawn_options, if_some,
  database_positive_i32, cancellation_object, duration_seconds_i64, insert_cancellation,
  insert_some, retry_strategy_json, i32_max, i64_max, rounded_up, max_database_delay_seconds,
  validate_idempotency_key, validate_retry_strategy,
}

-- The predicate holds of the value, if there is one.
abbrev pub OnSome {ℓ κ} : {A : Type ℓ} → (A → Type κ) → Option A → Type κ
OnSome P none = Unit
OnSome P (some a) = P a

-- A limit that fits the database's bigint.
abbrev pub IsStorableLimit : Duration → Type 0
IsStorableLimit d = rounded_up d ≤ i64_max

abbrev pub IsValidPolicy : CancellationPolicy → Type 0
IsValidPolicy p = OnSome IsStorableLimit p.max_duration × OnSome IsStorableLimit p.max_delay

abbrev pub IsValidKey : Str → Type 0
IsValidKey k = (is_blank k ≡ false) × (byte_len k ≤ 1024)

abbrev pub IsValidAttempts : ℕ → Type 0
IsValidAttempts n = (1 ≤ n) × (n ≤ i32_max)

-- The one value of a unit result.
unit_result {ℓ} :
    {E : Type 0} {P : Unit {0} → Type ℓ} (r : Result (Unit {0}) E)
    → ((a : Unit {0}) × (r ≡ ok a) × P a)
    → r ≡ ok tt
unit_result r (a, e, p) = e

-- A stage that inserts an optional value succeeds exactly when the value converts.
insert_some-Succeeds_iff {ℓ} :
    {A : Type ℓ} (key : _) (f : A → Result Json Error) (o : Option A) (p : JsonObject)
    → Succeeds (insert_some key f o p) ↔ OnSome (λ a. Succeeds (f a)) o
insert_some-Succeeds_iff key f none p = (λ _. tt, λ _. (p, refl))
insert_some-Succeeds_iff key f (some a) p = (
  λ (q, e). let (v, e', _) = >>=-eq-ok (f a) _ e in (v, e'),
  λ (v, e). >>=-Succeeds (f a) _ v e (_, refl),
)

validate_key_iff : (k : Str) → (validate_idempotency_key k ≡ ok tt) ↔ IsValidKey k
unfolding validate_idempotency_key
validate_key_iff k = (λ h. ground (arith, is_empty-trim k), λ h. ground (arith, is_empty-trim k))

module _ (as_secs_f64 : Duration → F64) where
  abbrev pub IsStorableDelay : Duration → Type 0
  IsStorableDelay d = as_secs_f64 d ≤ max_database_delay_seconds

  abbrev pub IsValidStrategy : RetryStrategy → Type 0
  IsValidStrategy (RetryStrategy.fixed d) = IsStorableDelay d
  IsValidStrategy (RetryStrategy.exponential d factor m) =
      IsStorableDelay d
      × (is_finite factor ≡ true)
      × (is_nonpositive factor ≡ false)
      × OnSome IsStorableDelay m
  IsValidStrategy RetryStrategy.never = Unit

  pub record IsValidConfig (c : SpawnConfig) : Type 0 where
    pub attempts : OnSome IsValidAttempts c.max_attempts
    pub retry : OnSome IsValidStrategy c.retry_strategy
    pub cancellation : OnSome IsValidPolicy c.cancellation
    pub key : OnSome IsValidKey c.idempotency_key

  validate_retry_strategy_iff :
      (s : RetryStrategy) → (validate_retry_strategy as_secs_f64 s ≡ ok tt) ↔ IsValidStrategy s
  unfolding validate_retry_strategy
  validate_retry_strategy_iff (RetryStrategy.fixed d) = (λ h. ground arith, λ h. ground arith)
  validate_retry_strategy_iff (RetryStrategy.exponential d f none) =
      (λ h. ground arith, λ h. ground arith)
  validate_retry_strategy_iff (RetryStrategy.exponential d f (some m)) =
      (λ h. ground arith, λ h. ground arith)
  validate_retry_strategy_iff RetryStrategy.never = (λ h. tt, λ h. refl)

  retry_strategy_json-Succeeds_iff :
      (s : RetryStrategy) → Succeeds (retry_strategy_json as_secs_f64 s) ↔ IsValidStrategy s
  unfolding retry_strategy_json
  retry_strategy_json-Succeeds_iff s = (
    λ (j, e).
        (validate_retry_strategy_iff s).0
          (unit_result _ (>>=-eq-ok (validate_retry_strategy as_secs_f64 s) _ e)),
    λ v. >>=-Succeeds _ _ tt ((validate_retry_strategy_iff s).1 v) (_, refl),
  )

IsStorableLimit-iff : (label : _) (d : Duration) → Succeeds (limit_json label d) ↔ IsStorableLimit d
unfolding duration_seconds_i64
IsStorableLimit-iff label d =
    (λ (j, e). ground arith, λ v. (Json.number (Number.pos_int (rounded_up d)), ground arith))

IsValidAttempts-iff : (n : ℕ) → Succeeds (attempts_json n) ↔ IsValidAttempts n
unfolding database_positive_i32
IsValidAttempts-iff n =
    (λ (j, e). ground arith, λ v. (Json.number (Number.pos_int n), ground arith))

insert_limit-Succeeds_iff :
    (key label : _) (o : Option Duration) (p : JsonObject)
    → Succeeds (insert_some key (limit_json label) o p) ↔ OnSome IsStorableLimit o
insert_limit-Succeeds_iff key label none p = (λ _. tt, λ _. (p, refl))
insert_limit-Succeeds_iff key label (some d) p =
    let both = insert_some-Succeeds_iff key (limit_json label) (some d) p in
    (
      λ s. (IsStorableLimit-iff label d).0 (both.0 s),
      λ v. both.1 ((IsStorableLimit-iff label d).1 v),
    )

cancellation_object-Succeeds_iff :
    (p : CancellationPolicy) → Succeeds (cancellation_object p) ↔ IsValidPolicy p
unfolding cancellation_object
cancellation_object-Succeeds_iff p = (
  λ (q, e).
      let (v, e1, e2) =
        >>=-eq-ok
          (insert_some "maxDuration" (limit_json "cancellation max_duration") p.max_duration empty)
          _ e in
      ((first empty).0 (v, e1), (second v).0 (q, e2)),
  λ (h, k). let (v, e) = (first empty).1 h in >>=-Succeeds _ _ v e ((second v).1 k),
)
  where
    first :
        (q : JsonObject)
        → Succeeds
            (insert_some "maxDuration" (limit_json "cancellation max_duration") p.max_duration q)
          ↔ OnSome IsStorableLimit p.max_duration
    first q = insert_limit-Succeeds_iff "maxDuration" "cancellation max_duration" p.max_duration q

    second :
        (q : JsonObject)
        → Succeeds (insert_some "maxDelay" (limit_json "cancellation max_delay") p.max_delay q)
          ↔ OnSome IsStorableLimit p.max_delay
    second q = insert_limit-Succeeds_iff "maxDelay" "cancellation max_delay" p.max_delay q

pub insert_cancellation-Succeeds_iff :
    (o : Option CancellationPolicy) (p : JsonObject)
    → Succeeds (insert_cancellation o p) ↔ OnSome IsValidPolicy o
unfolding insert_cancellation
insert_cancellation-Succeeds_iff none p = (λ _. tt, λ _. (p, refl))
insert_cancellation-Succeeds_iff (some policy) p = (
  λ (q, e).
      let (v, e', _) = >>=-eq-ok (cancellation_object policy) _ e in
      (cancellation_object-Succeeds_iff policy).0 (v, e'),
  λ h.
      let (v, e) = (cancellation_object-Succeeds_iff policy).1 h in
      >>=-Succeeds (cancellation_object policy) _ v e (_, refl),
)

pub validate_options_iff :
    (as_secs_f64 : Duration → F64) (c : SpawnConfig)
    → (validate_spawn_options as_secs_f64 c ≡ ok tt) ↔ (
        (is_some_zero c.max_attempts ≡ false)
        × OnSome (IsValidStrategy as_secs_f64) c.retry_strategy
        × OnSome IsValidKey c.idempotency_key)
unfolding validate_spawn_options
validate_options_iff as_secs_f64 c = go c.retry_strategy c.idempotency_key
  where
    go :
        (r : Option RetryStrategy) (k : Option Str)
        → ((fail_if
                (is_some_zero c.max_attempts)
                (Error.invalid_options (literal "max_attempts must be at least 1"))
              >> (if_some (validate_retry_strategy as_secs_f64) r
                  >> if_some validate_idempotency_key k))
            ≡ ok tt)
          ↔ ((is_some_zero c.max_attempts ≡ false)
              × OnSome (IsValidStrategy as_secs_f64) r
              × OnSome IsValidKey k)
    go none none = (λ h. ground arith, λ h. ground arith)
    go (some s) none = (
      λ h. ground (arith, validate_retry_strategy_iff as_secs_f64 s),
      λ h. ground (arith, validate_retry_strategy_iff as_secs_f64 s),
    )
    go none (some k) =
        (λ h. ground (arith, validate_key_iff k), λ h. ground (arith, validate_key_iff k))
    go (some s) (some k) = (
      λ h. ground (arith, validate_key_iff k, validate_retry_strategy_iff as_secs_f64 s),
      λ h. ground (arith, validate_key_iff k, validate_retry_strategy_iff as_secs_f64 s),
    )

pub valid_attempts_nonzero : (o : Option ℕ) → OnSome IsValidAttempts o → is_some_zero o ≡ false
valid_attempts_nonzero none h = refl
valid_attempts_nonzero (some n) h = ground arith

pub insert_attempts-Succeeds_iff :
    (o : Option ℕ) (p : JsonObject)
    → Succeeds (insert_some "maxAttempts" attempts_json o p) ↔ OnSome IsValidAttempts o
insert_attempts-Succeeds_iff none p = (λ _. tt, λ _. (p, refl))
insert_attempts-Succeeds_iff (some n) p =
    let both = insert_some-Succeeds_iff "maxAttempts" attempts_json (some n) p in
    (λ s. (IsValidAttempts-iff n).0 (both.0 s), λ v. both.1 ((IsValidAttempts-iff n).1 v))

pub insert_retry-Succeeds_iff :
    (as_secs_f64 : Duration → F64) (o : Option RetryStrategy) (p : JsonObject)
    → Succeeds (insert_some "retryStrategy" (retry_strategy_json as_secs_f64) o p)
      ↔ OnSome (IsValidStrategy as_secs_f64) o
insert_retry-Succeeds_iff f none p = (λ _. tt, λ _. (p, refl))
insert_retry-Succeeds_iff f (some s) p =
    let both = insert_some-Succeeds_iff "retryStrategy" (retry_strategy_json f) (some s) p in
    (
      λ h. (retry_strategy_json-Succeeds_iff f s).0 (both.0 h),
      λ v. both.1 ((retry_strategy_json-Succeeds_iff f s).1 v),
    )

pub insert_plain-Succeeds {ℓ} :
    {A : Type ℓ} (key : _) (f : A → Json) (o : Option A) (p : JsonObject)
    → Succeeds (insert_some key (λ a. ok (f a)) o p)
insert_plain-Succeeds key f none p = (p, refl)
insert_plain-Succeeds key f (some a) p = (_, refl)
