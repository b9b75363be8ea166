-- ===== src/Options/Seconds.antt =====
-- Durations become whole seconds by rounding up, and are refused exactly when they do not fit.
use steda.Prelude.{zero, suc, ltb, if◌then◌else◌, ℕ, ◌+◌, ◌*◌, ◌≤◌, ◌<◌, ◌≡◌, ◌↔◌, arith}
use steda.Duration.{Duration, IsDuration, as_nanos}
use steda.Error.{ok}
use steda.Options.{rounded_up, i32_max, i64_max, duration_seconds, duration_seconds_i64}

-- A started second counts as a whole one.
abbrev pub whole_seconds : ℕ → ℕ → ℕ
whole_seconds secs zero = secs
whole_seconds secs (suc nanos) = suc secs

abbrev pub seconds_up : Duration → ℕ
seconds_up d = whole_seconds d.secs d.subsec_nanos

pub rounded_up_lem : (d : Duration) → rounded_up d ≡ seconds_up d
rounded_up_lem d = go d.secs d.subsec_nanos
  where
    go : (secs nanos : ℕ) → secs + (if ltb 0 nanos then 1 else 0) ≡ whole_seconds secs nanos
    go secs zero = omega arith
    go secs (suc nanos) = ground arith

-- `n` is the number of seconds that a duration rounds up to.
abbrev pub IsCeiling : Duration → ℕ → Type 0
IsCeiling d n = (as_nanos d ≤ n * 1_000_000_000) × (n * 1_000_000_000 < as_nanos d + 1_000_000_000)

-- A duration converts to `n` exactly when `n` seconds are its ceiling and fit an `i32`.
pub duration_seconds_iff :
    (d : Duration) (n : ℕ)
    → IsDuration d
    → (duration_seconds d ≡ ok n) ↔ (IsCeiling d n × (n ≤ i32_max))
unfolding duration_seconds
duration_seconds_iff d n v = (λ h. ground arith, λ h. ground arith)

-- A cancellation limit converts to `n` exactly when `n` seconds are its ceiling and fit an `i64`.
pub duration_seconds_i64_iff :
    (d : Duration) (label : _) (n : ℕ)
    → IsDuration d
    → (duration_seconds_i64 d label ≡ ok n) ↔ (IsCeiling d n × (n ≤ i64_max))
unfolding duration_seconds_i64
duration_seconds_i64_iff d label n v = (λ h. ground arith, λ h. ground arith)
