-- ===== src/Options/Payload.antt =====
-- What the payload of an accepted spawn configuration holds.
use Prim.Native.String.{String}
use steda.Prelude.{refl, if◌then◌else◌, ℕ, ◌≡◌, Bool, true, false, Option, none, some, arith}
use steda.Text.{Str, codes, str_eq}
use steda.Duration.{Duration}
use steda.Json.{has_no_entry, insert, F64, Json, JsonObject, Number, get, empty, entry, get-insert}
use steda.Error.{◌>>=◌, Error, Result, ok, >>=-eq-ok}
use steda.Types.{RetryStrategy, CancellationPolicy, SpawnConfig}
use steda.Options.{
  validate_spawn_options, cancellation_object, insert_cancellation, normalize_spawn_options,
  insert_some, nonempty_headers, duration_seconds_i64, database_positive_i32, limit_json,
  attempts_json, retry_strategy_json, strategy_object, validate_retry_strategy,
}
use steda.Options.Seconds.{rounded_up_lem, seconds_up}

-- The first value that is there.
abbrev or_else : Option Json → Option Json → Option Json
or_else (some v) o = some v
or_else none o = o

or_else-none : (o : Option Json) → or_else o none ≡ o
or_else-none none = refl
or_else-none (some v) = refl

abbrev when : Bool → Option Json → Option Json
when true o = o
when false o = none

abbrev map_json {ℓ} : {A : Type ℓ} → (A → Json) → Option A → Option Json
map_json f none = none
map_json f (some a) = some (f a)

abbrev integer : ℕ → Json
integer n = Json.number (Number.pos_int n)

-- Headers without an entry are not stored.
abbrev stored_headers : Option JsonObject → Option Json
stored_headers none = none
stored_headers (some empty) = none
stored_headers (some (entry k v m)) = some (Json.object (entry k v m))

nonempty_headers_lem :
    (headers : Option JsonObject)
    → map_json Json.object (nonempty_headers headers) ≡ stored_headers headers
nonempty_headers_lem none = refl
nonempty_headers_lem (some empty) = refl
nonempty_headers_lem (some (entry k v m)) = refl

-- The object stored for a cancellation policy; an empty policy stores none.
abbrev stored_policy : Option Duration → Option Duration → Option Json
stored_policy none none = none
stored_policy (some a) none =
    some (Json.object (entry (codes "maxDuration") (integer (seconds_up a)) empty))
stored_policy none (some b) =
    some (Json.object (entry (codes "maxDelay") (integer (seconds_up b)) empty))
stored_policy (some a) (some b) = some (
    Json.object (
      entry (codes "maxDuration") (integer (seconds_up a))
        (entry (codes "maxDelay") (integer (seconds_up b)) empty)))

abbrev stored_cancellation : Option CancellationPolicy → Option Json
stored_cancellation none = none
stored_cancellation (some p) = stored_policy p.max_duration p.max_delay

abbrev float : F64 → Json
float x = Json.number (Number.float x)

-- The object stored for a retry strategy: its kind, and the delays in seconds that it has.
abbrev stored_strategy : (Duration → F64) → RetryStrategy → JsonObject
stored_strategy secs RetryStrategy.never = entry (codes "kind") (Json.string (codes "none")) empty
stored_strategy secs (RetryStrategy.fixed delay) =
    entry (codes "kind") (Json.string (codes "fixed"))
      (entry (codes "baseSeconds") (float (secs delay)) empty)
stored_strategy secs (RetryStrategy.exponential initial factor none) =
    entry (codes "kind") (Json.string (codes "exponential")) (
      entry (codes "baseSeconds") (float (secs initial))
        (entry (codes "factor") (float factor) empty))
stored_strategy secs (RetryStrategy.exponential initial factor (some longest)) =
    entry (codes "kind") (Json.string (codes "exponential")) (
      entry (codes "baseSeconds") (float (secs initial)) (
        entry (codes "factor") (float factor)
          (entry (codes "maxSeconds") (float (secs longest)) empty)))

strategy_object_lem :
    (secs : Duration → F64) (s : RetryStrategy) → strategy_object secs s ≡ stored_strategy secs s
unfolding strategy_object insert str_eq
strategy_object_lem secs RetryStrategy.never = refl
strategy_object_lem secs (RetryStrategy.fixed delay) = refl
strategy_object_lem secs (RetryStrategy.exponential initial factor none) = refl
strategy_object_lem secs (RetryStrategy.exponential initial factor (some longest)) = refl

-- What a payload should hold under each key, nothing under any other.
abbrev pub stored_option : (Duration → F64) → SpawnConfig → Str → Option Json
stored_option as_secs_f64 c k =
    or_else (when (str_eq k (codes "idempotencyKey")) (map_json Json.string c.idempotency_key)) (
      or_else (when (str_eq k (codes "cancellation")) (stored_cancellation c.cancellation)) (
        or_else
          (when (str_eq k (codes "retryStrategy"))
            (map_json (λ s. Json.object (stored_strategy as_secs_f64 s)) c.retry_strategy))
          (or_else (when (str_eq k (codes "maxAttempts")) (map_json integer c.max_attempts))
            (when (str_eq k (codes "headers")) (stored_headers c.headers)))))

-- A stage whose conversion, where it succeeds, is `g` adds the converted value under its key.
get-insert_some {ℓ} :
    {A : Type ℓ} (key : String) (f : A → Result Json Error) (g : A → Json)
    → ((a : A) (v : Json) → f a ≡ ok v → v ≡ g a)
    → (o : Option A) (p : JsonObject) {q : JsonObject} (k : Str) → insert_some key f o p ≡ ok q
    → get k q ≡ or_else (when (str_eq k (codes key)) (map_json g o)) (get k p)
get-insert_some key f g same none p k e = ground arith
get-insert_some key f g same (some a) p k e =
    let (v, e1, e2) = >>=-eq-ok (f a) _ e in
    ground (arith, same a v e1, get-insert k (codes key) v p)

attempts_json-ok : (n : ℕ) (v : Json) → attempts_json n ≡ ok v → v ≡ integer n
unfolding database_positive_i32
attempts_json-ok n v e = ground arith

limit_json-ok :
    (label : String) (d : Duration) (v : Json)
    → limit_json label d ≡ ok v
    → v ≡ integer (seconds_up d)
unfolding duration_seconds_i64
limit_json-ok label d v e = ground (arith, rounded_up_lem d)

retry_strategy_json-ok :
    (as_secs_f64 : Duration → F64) (s : RetryStrategy) (v : Json)
    → retry_strategy_json as_secs_f64 s ≡ ok v
    → v ≡ Json.object (stored_strategy as_secs_f64 s)
unfolding retry_strategy_json
retry_strategy_json-ok f s v e =
    let (_, _, h) = >>=-eq-ok (validate_retry_strategy f s) _ e in
    ground (arith, strategy_object_lem f s)

limits : Option Duration → Option Duration → JsonObject
limits none none = empty
limits (some a) none = entry (codes "maxDuration") (integer (seconds_up a)) empty
limits none (some b) = entry (codes "maxDelay") (integer (seconds_up b)) empty
limits (some a) (some b) =
    entry (codes "maxDuration") (integer (seconds_up a))
      (entry (codes "maxDelay") (integer (seconds_up b)) empty)

insert_limits :
    (a b : Option Duration) {q : JsonObject}
    → (insert_some "maxDuration" (limit_json "cancellation max_duration") a empty >>= λ v.
        insert_some "maxDelay" (limit_json "cancellation max_delay") b v)
      ≡ ok q
    → q ≡ limits a b
unfolding limits duration_seconds_i64 insert str_eq
insert_limits none none e = ground arith
insert_limits (some a) none e = ground (arith, rounded_up_lem a)
insert_limits none (some b) e = ground (arith, rounded_up_lem b)
insert_limits (some a) (some b) e = ground (arith, rounded_up_lem a, rounded_up_lem b)

get-insert_policy :
    (a b : Option Duration) (p : JsonObject) (k : Str)
    → get k (
        if has_no_entry (limits a b)
        then p
        else insert (codes "cancellation") (Json.object (limits a b)) p)
      ≡ or_else (when (str_eq k (codes "cancellation")) (stored_policy a b)) (get k p)
unfolding limits
get-insert_policy none none p k = ground arith
get-insert_policy (some a) none p k =
    ground (arith, get-insert k (codes "cancellation") (Json.object (limits (some a) none)) p)
get-insert_policy none (some b) p k =
    ground (arith, get-insert k (codes "cancellation") (Json.object (limits none (some b))) p)
get-insert_policy (some a) (some b) p k =
    ground (arith, get-insert k (codes "cancellation") (Json.object (limits (some a) (some b))) p)

get-insert_cancellation :
    (o : Option CancellationPolicy) (p : JsonObject) {q : JsonObject} (k : Str)
    → insert_cancellation o p ≡ ok q
    → get k q ≡ or_else (when (str_eq k (codes "cancellation")) (stored_cancellation o)) (get k p)
unfolding insert_cancellation cancellation_object
get-insert_cancellation none p k e = ground arith
get-insert_cancellation (some policy) p k e =
    let (v, e1, e2) = >>=-eq-ok (cancellation_object policy) _ e in
    let same = insert_limits policy.max_duration policy.max_delay e1 in
    ground (arith, same, get-insert_policy policy.max_duration policy.max_delay p k)

-- The payload of an accepted configuration holds, under each key, exactly what the configuration
-- says: non-empty headers, the attempts, the retry strategy with its kind, its delays in seconds, its
-- factor and its longest delay where it has them, the cancellation limits in whole seconds rounded up
-- unless there are none, and the idempotency key; and nothing else.
pub normalize_spawn_options-get :
    (as_secs_f64 : Duration → F64) (c : SpawnConfig) {q : JsonObject} (k : Str)
    → normalize_spawn_options as_secs_f64 c ≡ ok q
    → get k q ≡ stored_option as_secs_f64 c k
unfolding normalize_spawn_options get
normalize_spawn_options-get as_secs_f64 c k e =
    let (_, e0, h) = >>=-eq-ok (validate_spawn_options as_secs_f64 c) _ e in
    let (p1, e1, h) =
      >>=-eq-ok (insert_some "headers" (λ m. ok (Json.object m)) (nonempty_headers c.headers) empty)
        _ h in
    let (p2, e2, h) = >>=-eq-ok (insert_some "maxAttempts" attempts_json c.max_attempts p1) _ h in
    let (p3, e3, h) =
      >>=-eq-ok (insert_some "retryStrategy" (retry_strategy_json as_secs_f64) c.retry_strategy p2)
        _ h in
    let (p4, e4, h) = >>=-eq-ok (insert_cancellation c.cancellation p3) _ h in
    let g1 =
      get-insert_some "headers" (λ m. ok (Json.object m)) Json.object (λ a v e. cc)
        (nonempty_headers c.headers) empty k e1 in
    let g2 =
      get-insert_some "maxAttempts" attempts_json integer attempts_json-ok c.max_attempts p1 k e2 in
    let g3 =
      get-insert_some "retryStrategy" (retry_strategy_json as_secs_f64)
        (λ s. Json.object (stored_strategy as_secs_f64 s)) (retry_strategy_json-ok as_secs_f64)
        c.retry_strategy p2 k e3 in
    let g4 = get-insert_cancellation c.cancellation p3 k e4 in
    let g5 =
      get-insert_some "idempotencyKey" (λ s. ok (Json.string s)) Json.string (λ a v e. cc)
        c.idempotency_key p4 k h in
    rw (g5, g4, g3, g2, g1, nonempty_headers_lem c.headers, or_else-none) refl
