-- ===== src/Retry/Backoff.antt =====
-- src/retry.rs, `mod backoff`: how long to wait before the next attempt.
-- A `Duration` is its number of nanoseconds. The value of `fast_random()` is an argument, and so is
-- `checks`: whether the build profile checks integer arithmetic for overflow and panics (`none`).
pub mod Bounds
use reqwest.Prelude.{
  ℕ, ◌+◌, ◌*◌, ◌/◌, ◌%◌, ◌^◌, ◌-◌, min, Bool, Option, none, some, ◌>>=◌, ltb, leb, ◌==◌,
  if◌then◌else◌,
}

-- `Duration::MAX`: u64::MAX seconds and 999_999_999 nanoseconds.
abbrev pub duration_max : ℕ
duration_max = 2 ^ 64 * 1000000000 - 1

abbrev pub max_doublings : ℕ
max_doublings = 20

pub data Backoff : Type 0 where
  exponential : ℕ → Backoff
  func : (ℕ → ℕ) → Backoff

-- `Backoff::default()`: 100 milliseconds.
abbrev pub default : Backoff
default = exponential 100000000

-- `Duration::saturating_mul`.
abbrev pub saturating_mul : ℕ → ℕ → ℕ
saturating_mul base factor = min (base * factor) duration_max

-- `*` on u128.
mul_u128 : Bool → ℕ → ℕ → Option ℕ
mul_u128 checks a b =
    if ltb (a * b) (2 ^ 128) then some (a * b) else if checks then none else some (a * b % 2 ^ 128)

-- `+` on durations, which panics past the largest.
add_duration : ℕ → ℕ → Option ℕ
add_duration a b = if leb (a + b) duration_max then some (a + b) else none

pub jitter : Bool → ℕ → ℕ → Option ℕ
unfolding mul_u128 add_duration
jitter checks random delay = do
  let half = delay / 2
  product ← mul_u128 checks half random
  add_duration half (product / 2 ^ 64 % 2 ^ 64)

-- `1u32 << attempt.min(MAX_DOUBLINGS)`.
abbrev pub factor : ℕ → ℕ
factor attempt = 2 ^ min attempt max_doublings % 2 ^ 32

-- `Backoff::delay`.
unfoldable pub delay : Bool → ℕ → Backoff → ℕ → Option ℕ
unfolding jitter
delay checks random (exponential base) attempt =
    if base == 0 then some 0 else jitter checks random (saturating_mul base (factor attempt))
delay checks random (func f) attempt = some (f attempt)
