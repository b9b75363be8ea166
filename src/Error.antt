-- ===== src/Error.antt =====
-- src/error.rs: the crate's error type, its result type, and the mapping of SQLSTATE codes.
use Prim.Native.String.{String}
use steda.Prelude.{refl, ◌≡◌, ℕ, Bool, true, false, Option, none, some, List, [], if◌then◌else◌}
use steda.Text.{Str, codes, str_eq}
use steda.Json.{Json}
use steda.Identifiers.{TaskId}

-- An argument of a formatted message; `debug` is one formatted by `{:?}`.
pub data Argument : Type 0 where
  number : ℕ → Argument
  display : Str → Argument
  debug : Str → Argument
  task : TaskId → Argument
  json : Json → Argument

-- A message built by `format!`: the format string and its arguments. It is not rendered.
pub record Message : Type 0 where
  pub template : String
  pub arguments : List Argument

-- A message that is a literal.
abbrev pub literal : String → Message
literal s = record { template = s; arguments = [] }

abbrev pub format : String → List Argument → Message
format s args = record { template = s; arguments = args }

-- `sqlx::Error`, by the cases that the code tells apart; a database error has its SQLSTATE code.
pub data SqlxError : Type 0 where
  io tls pool_timed_out : SqlxError
  database : Option Str → SqlxError
  unclassified : String → SqlxError

-- `BoxError`: what an executor returned, by the renderings of the error and of its causes.
pub record BoxError : Type 0 where
  pub message : Str
  pub causes : List Str

pub data Error : Type 0 where
  database : SqlxError → Error
  invalid_options : Message → Error
  missing_queue_name : Error
  queue_name_too_long : (name : Str) (max : ℕ) → Error
  task_not_found : TaskId → Error
  task_name_mismatch : (task_id : TaskId) (expected actual : Str) → Error
  task_failed : (failure : Json) → Error
  suspended cancelled failed_run lease_lost idempotency_conflict : Error
  timeout : Message → Error
  invalid_task_headers : Message → Error
  serialization : Str → Error
  task : BoxError → Error
  other : Message → Error

-- `std::result::Result`.
pub data Result {ℓ} (A : Type ℓ) (E : Type 0) : Type ℓ where
  ok : A → Result A E
  err : E → Result A E

infixl 5 ◌>>=◌ ◌>>◌
-- The `?` operator: an error ends the chain.
abbrev pub ◌>>=◌ {ℓ κ} :
    {A : Type ℓ} {B : Type κ} {E : Type 0} → Result A E → (A → Result B E) → Result B E
err failure >>= rest = err failure
ok value >>= rest = rest value

abbrev pub ◌>>◌ {ℓ} : {B : Type ℓ} {E : Type 0} → Result (Unit {0}) E → Result B E → Result B E
first >> second = first >>= λ done. second

-- The call returns a value.
abbrev pub Succeeds {ℓ} : {A : Type ℓ} {E : Type 0} → Result A E → Type ℓ
Succeeds {A} {E} r = (a : A) × (◌≡◌ {A = Result A E} r (ok a))

-- A chain succeeds only if its first call does, and then as the rest of it does.
pub >>=-eq-ok {ℓ κ} :
    {A : Type ℓ} {B : Type κ} {E : Type 0} (call : Result A E) (rest : A → Result B E) {result : B}
    → (call >>= rest) ≡ ok result
    → (value : A) × (call ≡ ok value) × (rest value ≡ ok result)
>>=-eq-ok (err failure) rest chain = cc
>>=-eq-ok (ok value) rest chain = (value, refl, chain)

pub >>=-Succeeds {ℓ κ} :
    {A : Type ℓ} {B : Type κ} {E : Type 0} (m : Result A E) (f : A → Result B E) (a : A)
    → m ≡ ok a
    → Succeeds (f a)
    → Succeeds (m >>= f)
>>=-Succeeds m f a e s = rw e s

-- `map_err`.
abbrev pub map_err {ℓ} : {A : Type ℓ} {D E : Type 0} → (D → E) → Result A D → Result A E
map_err f (ok a) = ok a
map_err f (err e) = err (f e)

pub map_err-eq-ok {ℓ} :
    {A : Type ℓ} {D E : Type 0} (f : D → E) (r : Result A D) {a : A} → map_err f r ≡ ok a → r ≡ ok a
map_err-eq-ok f (ok b) e = cc
map_err-eq-ok f (err d) e = cc

-- `ok_or`, and `ok_or_else` of a pure closure.
abbrev pub ok_or {ℓ} : {A : Type ℓ} {E : Type 0} → Option A → E → Result A E
ok_or none e = err e
ok_or (some a) e = ok a

-- An early `return Err(e)` under a test.
abbrev pub fail_if : {E : Type 0} → Bool → E → Result (Unit {0}) E
fail_if true e = err e
fail_if false e = ok tt

abbrev pub is_suspended : Error → Bool
is_suspended Error.suspended = true
is_suspended _ = false

abbrev pub is_cancelled : Error → Bool
is_cancelled Error.cancelled = true
is_cancelled _ = false

abbrev pub is_failed_run : Error → Bool
is_failed_run Error.failed_run = true
is_failed_run _ = false

abbrev pub is_lease_lost : Error → Bool
is_lease_lost Error.lease_lost = true
is_lease_lost _ = false

-- The `match` on the code of a database error.
abbrev map_code : Str → Option Error
map_code code =
    if str_eq code (codes "ST001")
    then some Error.cancelled
    else if str_eq code (codes "ST002")
    then some Error.failed_run
    else if str_eq code (codes "ST003")
    then some Error.lease_lost
    else if str_eq code (codes "ST004")
    then some Error.idempotency_conflict
    else none

abbrev or_database : Option Error → SqlxError → Error
or_database (some e) _ = e
or_database none e = Error.database e

unfoldable pub map_sqlx_error : SqlxError → Error
map_sqlx_error (SqlxError.database (some code)) =
    or_database (map_code code) (SqlxError.database (some code))
map_sqlx_error e = Error.database e
