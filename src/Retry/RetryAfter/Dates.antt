-- ===== src/Retry/RetryAfter/Dates.antt =====
-- src/retry.rs, `http_date`, against the printed form of a date.
use reqwest.Prelude.{
  zero, suc, ℕ, ◌+◌, ◌-◌, ◌*◌, ◌/◌, ◌%◌, ◌^◌, ◌≤◌, ◌<◌, ◌≡◌, refl, ap, Bool, true, false, ◌&&◌,
  ◌||◌, Option, none, some, List, [], ◌∷◌, ◌++◌, ◌==◌, ==_iff, if◌then◌else◌, arith, holds_up_to,
  codes, holds_at,
}
use reqwest.Prelude.Int.{ℤ, pos, negsuc, leb_ℤ, +ℤ_pos, *ℤ_pos}
use reqwest.Retry.RetryAfter.{
  http_date, num, month_number, date_fields, date_seconds, parse_digits, gt,
}
use reqwest.Retry.RetryAfter.Calendar.{
  days_before_year, days_before_month, leap_day, days_from_civil-calendar,
}

abbrev two : ℕ → List ℕ
two n = (48 + n / 10) ∷ (48 + n % 10) ∷ []

abbrev four : ℕ → List ℕ
four n = (48 + n / 1000) ∷ (48 + n / 100 % 10) ∷ (48 + n / 10 % 10) ∷ (48 + n % 10) ∷ []

num-two : (n : ℕ) → n < 100 → num (two n) ≡ some (pos n)
unfolding num parse_digits
num-two n h = ground arith

num-four : (n : ℕ) → n < 10000 → num (four n) ≡ some (pos n)
unfolding num parse_digits
num-four n h = ground arith

-- The letters of the name of a month.
pub letters : ℕ → ℕ × ℕ × ℕ
letters m =
    if m == 1
    then (b'J', b'a', b'n')
    else if m == 2
    then (b'F', b'e', b'b')
    else if m == 3
    then (b'M', b'a', b'r')
    else if m == 4
    then (b'A', b'p', b'r')
    else if m == 5
    then (b'M', b'a', b'y')
    else if m == 6
    then (b'J', b'u', b'n')
    else if m == 7
    then (b'J', b'u', b'l')
    else if m == 8
    then (b'A', b'u', b'g')
    else if m == 9
    then (b'S', b'e', b'p')
    else if m == 10
    then (b'O', b'c', b't')
    else if m == 11
    then (b'N', b'o', b'v')
    else (b'D', b'e', b'c')

abbrev name : ℕ → List ℕ
name m = (letters m).0 ∷ (letters m).1 ∷ (letters m).2 ∷ []

number_is : Option ℤ → ℕ → Bool
number_is (some (pos n)) m = n == m
number_is _ m = false

number_is→eq : (o : Option ℤ) (m : ℕ) → number_is o m ≡ true → o ≡ some (pos m)
unfolding number_is
number_is→eq (some (pos n)) m h = ap (λ k. some (pos k)) ((==_iff n m).0 h)
number_is→eq (some (negsuc n)) m h = cc
number_is→eq none m h = cc

name_table : holds_up_to (λ m. m == 0 || number_is (month_number (name m)) m) 13 ≡ true
unfolding holds_up_to month_number letters number_is
name_table = refl

month_number-name : (m : ℕ) → 1 ≤ m → m ≤ 12 → month_number (name m) ≡ some (pos m)
month_number-name m h k =
    let row =
      holds_at (λ n. n == 0 || number_is (month_number (name n)) n) 13 m name_table (omega arith) in
    number_is→eq (month_number (name m)) m (ground arith)

-- The seconds since the epoch of a time of the calendar.
abbrev pub calendar_seconds : ℕ → ℕ → ℕ → ℕ → ℕ → ℕ → ℕ
calendar_seconds k month day hour minute second =
    (days_before_year k + days_before_month (leap_day (1970 + k)) month + (day - 1)) * 86400
    + hour * 3600
    + minute * 60
    + second

fields_ok :
    (hour minute second day : ℕ)
    → hour ≤ 23
    → minute ≤ 59
    → second ≤ 60
    → 1 ≤ day
    → day ≤ 31
    → (gt (pos hour) 23
        || gt (pos minute) 59
        || gt (pos second) 60
        || (leb_ℤ (pos day) (pos 0) && leb_ℤ (pos 0) (pos day))
        || gt (pos day) 31)
      ≡ false
unfolding gt
fields_ok hour minute second day h n s d d' = ground arith

date_seconds-calendar :
    (k month day hour minute second : ℕ)
    → 1 ≤ month
    → month ≤ 12
    → 1 ≤ day
    → day ≤ 31
    → hour ≤ 23
    → minute ≤ 59
    → second ≤ 60
    → calendar_seconds k month day hour minute second < 2 ^ 64
    → date_seconds (pos (1970 + k)) (pos month) (pos day) (pos hour) (pos minute) (pos second)
      ≡ some (calendar_seconds k month day hour minute second)
unfolding date_seconds
date_seconds-calendar k month day hour minute second m m' d d' h n s bound =
    rw (fields_ok hour minute second day h n s d d', days_from_civil-calendar k month day m m' d)
      (simp (+ℤ_pos, *ℤ_pos) (ground arith))

days_before_year-le : (k : ℕ) → days_before_year k ≤ 366 * k
days_before_year-le zero = omega arith
days_before_year-le (suc k) = ground (arith, days_before_year-le k)

days_before_month-le : (leap m : ℕ) → leap ≤ 1 → days_before_month leap m ≤ 31 * m
days_before_month-le leap zero h = omega arith
days_before_month-le leap (suc zero) h = omega arith
days_before_month-le leap (suc (suc m)) h = ground (arith, days_before_month-le leap (suc m) h)

leap_day-le : (y : ℕ) → leap_day y ≤ 1
leap_day-le y = ground arith

calendar_seconds-lt :
    (k month day hour minute second : ℕ)
    → k < 8030
    → month ≤ 12
    → day ≤ 31
    → hour ≤ 23
    → minute ≤ 59
    → second ≤ 60
    → calendar_seconds k month day hour minute second < 2 ^ 64
calendar_seconds-lt k month day hour minute second y m d h n s = omega (
  arith,
  days_before_year-le k,
  days_before_month-le (leap_day (1970 + k)) month (leap_day-le (1970 + k)),
)

-- A date in the form of RFC 9110, with any three letters for the weekday and any byte for each of
-- the five separators behind the comma.
module _ (w₁ w₂ w₃ s₁ s₂ s₃ s₄ s₅ : ℕ) where
  abbrev pub imf_date : ℕ → ℕ → ℕ → ℕ → ℕ → ℕ → List ℕ
  imf_date k month day hour minute second =
      w₁ ∷ w₂ ∷ w₃ ∷ b',' ∷ b' ' ∷ two day
      ++ s₁ ∷ name month
      ++ s₂ ∷ four (1970 + k)
      ++ s₃ ∷ two hour
      ++ s₄ ∷ two minute
      ++ s₅ ∷ two second
      ++ codes " GMT"

  -- Every date from 1970 to 9999 in the form of RFC 9110, with seconds up to 60 and days up to 31,
  -- is read back as its seconds since the epoch, whatever the three bytes of the weekday and the
  -- five separators behind the comma are.
  pub http_date-imf_date :
      (k month day hour minute second : ℕ)
      → k < 8030
      → 1 ≤ month
      → month ≤ 12
      → 1 ≤ day
      → day ≤ 31
      → hour ≤ 23
      → minute ≤ 59
      → second ≤ 60
      → http_date (imf_date k month day hour minute second)
        ≡ some (calendar_seconds k month day hour minute second)
  unfolding http_date date_fields
  http_date-imf_date k month day hour minute second y m m' d d' h n s =
      rw
        (
          num-two day (omega arith),
          month_number-name month m m',
          num-four (1970 + k) (omega arith),
          num-two hour (omega arith),
          num-two minute (omega arith),
          num-two second (omega arith),
        )
        (date_seconds-calendar k month day hour minute second m m' d d' h n s
          (calendar_seconds-lt k month day hour minute second y m' d' h n s))
