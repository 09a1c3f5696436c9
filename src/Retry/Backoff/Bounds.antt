-- ===== src/Retry/Backoff/Bounds.antt =====
-- Bounds on the jittered delay, and when the jitter's product overflows.
use reqwest.Prelude.{
  Bool-cases, ap, leb, ◌&&◌, not-ltb→le, holds_up_to, holds_at, ◌==◌, ==_iff, inl, inr, ℕ, ◌+◌, ◌*◌,
  ◌/◌, ◌%◌, ◌^◌, ◌≤◌, ◌<◌, min, ◌≡◌, refl, Bool, true, false, none, some, ltb, arith,
}
use reqwest.Retry.Backoff.{
  exponential, duration_max, max_doublings, saturating_mul, mul_u128, add_duration, jitter, factor,
  delay,
}

scaled-le : (half random : ℕ) → random < 2 ^ 64 → half * random / 2 ^ 64 ≤ half
scaled-le half random h = grind arith

overflow-le : (half random : ℕ) → random < 2 ^ 64 → 2 ^ 128 ≤ half * random → 2 ^ 64 ≤ half
overflow-le half random h k = grind arith

-- Half of the delay and what the random product adds, whether or not the product wraps.
wrapped-le :
    (half random : ℕ)
    → random < 2 ^ 64
    → ltb (half * random) (2 ^ 128) ≡ false
    → half * random % 2 ^ 128 / 2 ^ 64 % 2 ^ 64 ≤ half
wrapped-le half random h wraps =
    let large = overflow-le half random h (not-ltb→le (half * random) (2 ^ 128) wraps) in
    omega arith

-- In the release profile, where the product wraps, the jittered delay always exists and lies
-- between half of the delay and the delay, whatever the random number.
pub jitter_bounds :
    (random delay : ℕ)
    → random < 2 ^ 64
    → delay ≤ duration_max
    → (d : ℕ) × (jitter false random delay ≡ some d) × (delay / 2 ≤ d) × (d ≤ delay)
unfolding jitter mul_u128 add_duration
jitter_bounds random delay h m = elim (Bool-cases (ltb (delay / 2 * random) (2 ^ 128))) [
  | inl fits ↦ (
    delay / 2 + delay / 2 * random / 2 ^ 64 % 2 ^ 64,
    ground (arith, scaled-le (delay / 2) random h),
    omega arith,
    omega (arith, scaled-le (delay / 2) random h),
  )
  | inr wraps ↦ (
    delay / 2 + delay / 2 * random % 2 ^ 128 / 2 ^ 64 % 2 ^ 64,
    ground (arith, wrapped-le (delay / 2) random h),
    omega arith,
    omega (arith, wrapped-le (delay / 2) random h),
  )
]

fits-lt : (half random : ℕ) → random < 2 ^ 64 → half ≤ 2 ^ 64 → half * random < 2 ^ 128
fits-lt half random h k = grind arith

-- Below 2 ^ 65 nanoseconds, some 1169 years, the product fits: both profiles agree.
jitter_profile :
    (checks : Bool) (random delay : ℕ)
    → random < 2 ^ 64
    → delay ≤ 2 ^ 65
    → jitter checks random delay ≡ jitter false random delay
unfolding jitter mul_u128 add_duration
jitter_profile checks random delay h k = ground (arith, fits-lt (delay / 2) random h (omega arith))

factor_table : holds_up_to (λ n. ltb 0 (2 ^ n % 2 ^ 32) && leb (2 ^ n % 2 ^ 32) (2 ^ 20)) 21 ≡ true
unfolding holds_up_to
factor_table = refl

factor_bounds : (attempt : ℕ) → (0 < factor attempt) × (factor attempt ≤ 2 ^ 20)
factor_bounds attempt =
    let row =
      holds_at (λ n. ltb 0 (2 ^ n % 2 ^ 32) && leb (2 ^ n % 2 ^ 32) (2 ^ 20)) 21 (min attempt 20)
        factor_table (omega arith) in
    ground arith

double_table : holds_up_to (λ n. 2 ^ (n + 1) % 2 ^ 32 == 2 * (2 ^ n % 2 ^ 32)) 20 ≡ true
unfolding holds_up_to
double_table = refl

factor-suc : (attempt : ℕ) → attempt < 20 → factor (attempt + 1) ≡ 2 * factor attempt
factor-suc attempt h =
    let row =
      holds_at (λ n. 2 ^ (n + 1) % 2 ^ 32 == 2 * (2 ^ n % 2 ^ 32)) 20 attempt double_table h in
    ground arith

product-le : (base attempt : ℕ) → base ≤ 2 ^ 45 → base * factor attempt ≤ 2 ^ 65
product-le base attempt h = let b = factor_bounds attempt in grind arith

-- With a base of up to 2 ^ 45 nanoseconds (some 9.7 hours) and a random number of 64 bits the
-- exponential backoff produces a delay in every build profile, at every attempt, between half of
-- the scaled base and the scaled base.
pub delay_bounds :
    (checks : Bool) (random base attempt : ℕ)
    → random < 2 ^ 64
    → base ≤ 2 ^ 45
    → (d : ℕ) × (delay checks random (exponential base) attempt ≡ some d)
      × (base * factor attempt / 2 ≤ d)
      × (d ≤ base * factor attempt)
unfolding delay
delay_bounds checks random base attempt h k = elim (Bool-cases (base == 0)) [
  | inl e ↦ (0, ground arith, grind (arith, (==_iff base 0).0 e), omega arith)
  | inr e ↦
      let p = product-le base attempt k in
      let (d, found, low, high) =
        jitter_bounds random (saturating_mul base (factor attempt)) h (omega arith) in
      (
        d,
        ground (
          arith,
          jitter_profile checks random (saturating_mul base (factor attempt)) h (omega arith),
        ),
        omega arith,
        omega arith,
      )
]

-- With the same conditions each delay is at least the one before it, whatever the two random
-- numbers, as long as the number of doublings stays under its limit.
pub delay_mono :
    (checks : Bool) (random random' base attempt d d' : ℕ)
    → random < 2 ^ 64
    → random' < 2 ^ 64
    → base ≤ 2 ^ 45
    → attempt < max_doublings
    → delay checks random (exponential base) attempt ≡ some d
    → delay checks random' (exponential base) (attempt + 1) ≡ some d'
    → d ≤ d'
delay_mono checks random random' base attempt d d' h h' k room e e' =
    let (now, found, low, high) = delay_bounds checks random base attempt h k in
    let (later, found', low', high') = delay_bounds checks random' base (attempt + 1) h' k in
    let same : d ≡ now = cc in
    let same' : d' ≡ later = cc in
    let twice = ap (λ n. base * n) (factor-suc attempt room) in omega arith

factor_limit : (attempt : ℕ) → max_doublings ≤ attempt → factor attempt ≡ 2 ^ 20
factor_limit attempt h = let e : min attempt 20 ≡ 20 = omega arith in rw e

-- From a base of 2 ^ 46 nanoseconds (some 19.5 hours) the product of the jitter leaves u128 after
-- twenty retries, for the larger half of the random numbers: a profile with checks panics.
pub delay_overflow :
    (random base attempt : ℕ)
    → 2 ^ 63 ≤ random
    → 2 ^ 46 ≤ base
    → max_doublings ≤ attempt
    → delay true random (exponential base) attempt ≡ none
unfolding delay jitter mul_u128
delay_overflow random base attempt h k limit =
    let half = saturating_mul base (factor attempt) / 2 in
    let scaled = ap (λ n. base * n) (factor_limit attempt limit) in
    let large : 2 ^ 65 ≤ half = omega arith in
    let product : 2 ^ 128 ≤ half * random = grind arith in ground arith
