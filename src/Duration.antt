-- ===== src/Duration.antt =====
-- `std::time::Duration`, as far as the code uses it: whole seconds and nanoseconds, compared and
-- scaled through the count of nanoseconds.
use steda.Prelude.{ℕ, ◌+◌, ◌-◌, ◌*◌, ◌/◌, ◌%◌, ◌^◌, ◌<◌, ◌≡◌, arith, leb, if◌then◌else◌}

pub record Duration : Type 0 where
  pub secs : ℕ
  pub subsec_nanos : ℕ

-- What every `Duration` satisfies.
abbrev pub IsDuration : Duration → Type 0
IsDuration d = (d.secs < 2 ^ 64) × (d.subsec_nanos < 1_000_000_000)

abbrev pub as_nanos : Duration → ℕ
as_nanos d = d.secs * 1_000_000_000 + d.subsec_nanos

abbrev pub from_nanos : ℕ → Duration
from_nanos n = record { secs = n / 1_000_000_000; subsec_nanos = n % 1_000_000_000 }

abbrev pub from_secs : ℕ → Duration
from_secs n = record { secs = n; subsec_nanos = 0 }

abbrev pub from_millis : ℕ → Duration
from_millis n = from_nanos (n * 1_000_000)

-- `Ord::min`.
abbrev pub shorter : Duration → Duration → Duration
shorter a b = if leb (as_nanos a) (as_nanos b) then a else b

-- `a - b`, which panics where `b` is longer; the code subtracts a shorter duration alone.
abbrev pub minus : Duration → Duration → Duration
minus a b = from_nanos (as_nanos a - as_nanos b)

-- `a * 2`.
abbrev pub twice : Duration → Duration
twice a = from_nanos (as_nanos a * 2)

-- `a / 2`.
abbrev pub half : Duration → Duration
half a = from_nanos (as_nanos a / 2)

pub as_nanos-from_nanos : (n : ℕ) → as_nanos (from_nanos n) ≡ n
as_nanos-from_nanos n = omega arith
