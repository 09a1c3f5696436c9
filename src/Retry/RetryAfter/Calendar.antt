-- ===== src/Retry/RetryAfter/Calendar.antt =====
-- src/retry.rs, `days_from_civil`, against the calendar.
use reqwest.Prelude.{
  ==_iff, holds_up_to, holds_at, ℕ, zero, suc, ◌+◌, ◌-◌, ◌*◌, ◌/◌, ◌%◌, ◌≤◌, ◌≡◌, refl, ◌∙◌, ap,
  Bool, true, false, ◌&&◌, ◌||◌, not, leb, ◌==◌, if◌then◌else◌, arith, Bool-cases, inl, inr,
}
use reqwest.Prelude.Int.{pos, ◌+ℤ◌, ◌-ℤ◌, ◌*ℤ◌, ◌/ℤ◌, ◌%ℤ◌, leb_ℤ, +ℤ_pos, *ℤ_pos, -ℤ_pos}
use reqwest.Retry.RetryAfter.{days_from_civil}

abbrev pub is_leap : ℕ → Bool
is_leap y = y % 4 == 0 && (not (y % 100 == 0) || y % 400 == 0)

abbrev pub leap_day : ℕ → ℕ
leap_day y = if is_leap y then 1 else 0

-- The days before 1 March of a year, counted from 1 March of year 0.
march : ℕ → ℕ
march y = y / 400 * 146097 + (y % 400 * 365 + y % 400 / 4 - y % 400 / 100)

march-suc : (y : ℕ) → march (y + 1) ≡ march y + 365 + leap_day (y + 1)
unfolding march
march-suc y = ground arith

-- The day of the year, from 1 March.
march_day : ℕ → ℕ → ℕ
march_day mp d = (153 * mp + 2) / 5 + d - 1

-- The arithmetic of `days_from_civil` behind its first line, on numbers.
civil_pos :
    (y m d : ℕ)
    → 1 ≤ d
    → 719468 ≤ march y + march_day ((m + 9) % 12) d
    → let era = pos y /ℤ 400 in
      let yoe = pos y -ℤ era *ℤ pos 400 in
      let doy = (pos 153 *ℤ ((pos m +ℤ pos 9) %ℤ 12) +ℤ pos 2) /ℤ 5 +ℤ pos d -ℤ pos 1 in
      let doe = yoe *ℤ pos 365 +ℤ yoe /ℤ 4 -ℤ yoe /ℤ 100 +ℤ doy in
      era *ℤ pos 146097 +ℤ doe -ℤ pos 719468 ≡ pos (march y + march_day ((m + 9) % 12) d - 719468)
unfolding ◌/ℤ◌ ◌%ℤ◌ march march_day
civil_pos y m d h k =
    let year : y - y / 400 * 400 ≡ y % 400 = omega arith in
    let day = (153 * ((m + 9) % 12) + 2) / 5 + d in
    let yoe = y % 400 in
    simp (+ℤ_pos, *ℤ_pos)
      (rw (-ℤ_pos y (y / 400 * 400) (omega arith), year, -ℤ_pos day 1 (omega arith))
        (simp (+ℤ_pos, *ℤ_pos)
          (rw (-ℤ_pos (yoe * 365 + yoe / 4) (yoe / 100) (omega arith))
            (simp (+ℤ_pos) (-ℤ_pos _ 719468 (omega arith) ∙ ap pos (omega arith))))))

zero-leb : (a : ℕ) → leb 0 a ≡ true
zero-leb a = ground arith

leb_pos : (a b : ℕ) → leb_ℤ (pos a) (pos b) ≡ leb a b
leb_pos a b = ground arith

-- January and February belong to the year that began in March before.
shifted : ℕ → ℕ → ℕ
shifted y m = if leb m 2 then y - 1 else y

days_from_civil-pos :
    (y m d : ℕ)
    → 1 ≤ y
    → 1 ≤ d
    → 719468 ≤ march (shifted y m) + march_day ((m + 9) % 12) d
    → days_from_civil (pos y) (pos m) (pos d)
      ≡ pos (march (shifted y m) + march_day ((m + 9) % 12) d - 719468)
unfolding days_from_civil shifted
days_from_civil-pos y m d hy hd k = elim (Bool-cases (leb m 2)) [
  | inl e ↦
      rw (leb_pos m 2, e, -ℤ_pos y 1 hy, leb_pos 0 (y - 1), zero-leb (y - 1))
        (civil_pos (y - 1) m d hd (rw (e, shifted) at k))
  | inr e ↦ rw (leb_pos m 2, e, leb_pos 0 y, zero-leb y) (civil_pos y m d hd (rw (e, shifted) at k))
]

-- The calendar: the days of a month and the days of the year before it, in a year with that many
-- leap days, and the days from 1970 to the start of a year.
abbrev pub month_days : ℕ → ℕ → ℕ
month_days leap m =
    if m == 2 then 28 + leap else if m == 4 || m == 6 || m == 9 || m == 11 then 30 else 31

abbrev pub days_before_month : ℕ → ℕ → ℕ
days_before_month leap zero = 0
days_before_month leap (suc zero) = 0
days_before_month leap (suc (suc m)) = days_before_month leap (suc m) + month_days leap (suc m)

abbrev pub days_before_year : ℕ → ℕ
days_before_year zero = 0
days_before_year (suc k) = days_before_year k + 365 + leap_day (1970 + k)

march-1969 : (k : ℕ) → march (1969 + k) + 306 ≡ 719468 + days_before_year k
unfolding march
march-1969 zero = refl
march-1969 (suc k) =
    let here : 1969 + suc k ≡ 1969 + k + 1 = omega arith in
    let there : 1970 + k ≡ 1969 + k + 1 = omega arith in
    rw (here, there) (omega (arith, march-suc (1969 + k), march-1969 k))

-- Each month's first day, counted from 1 March, agrees with the calendar.
row : ℕ → ℕ → Bool
row leap m =
    if leb m 2
    then march_day ((m + 9) % 12) 1 == 306 + days_before_month leap m
    else march_day ((m + 9) % 12) 1 + 59 + leap == days_before_month leap m

rows : holds_up_to (λ m. m == 0 || (row 0 m && row 1 m)) 13 ≡ true
unfolding holds_up_to march_day row
rows = refl

row_holds : (y m : ℕ) → 1 ≤ m → m ≤ 12 → row (leap_day y) m ≡ true
row_holds y m h k =
    let both = holds_at (λ n. n == 0 || (row 0 n && row 1 n)) 13 m rows (omega arith) in
    elim (Bool-cases (is_leap y)) [ inl e ↦ rw e (ground arith) | inr e ↦ rw e (ground arith) ]

row_early :
    (leap m : ℕ)
    → leb m 2 ≡ true
    → row leap m ≡ true
    → march_day ((m + 9) % 12) 1 ≡ 306 + days_before_month leap m
unfolding row
row_early leap m e h = (==_iff _ _).0 (rw e at h)

row_late :
    (leap m : ℕ)
    → leb m 2 ≡ false
    → row leap m ≡ true
    → march_day ((m + 9) % 12) 1 + 59 + leap ≡ days_before_month leap m
unfolding row
row_late leap m e h = (==_iff _ _).0 (rw e at h)

march_day-pred : (mp d : ℕ) → 1 ≤ d → march_day mp d ≡ march_day mp 1 + (d - 1)
unfolding march_day
march_day-pred mp d h = omega arith

civil_calendar :
    (k m d : ℕ)
    → 1 ≤ m
    → m ≤ 12
    → 1 ≤ d
    → march (shifted (1970 + k) m) + march_day ((m + 9) % 12) d
      ≡ 719468 + (days_before_year k + days_before_month (leap_day (1970 + k)) m + (d - 1))
unfolding shifted
civil_calendar k m d h h' hd =
    let day = march_day-pred ((m + 9) % 12) d hd in
    let before : 1970 + k - 1 ≡ 1969 + k = omega arith in
    let after : 1970 + k ≡ 1969 + k + 1 = omega arith in
    elim (Bool-cases (leb m 2)) [
      | inl e ↦
          let first = row_early (leap_day (1970 + k)) m e (row_holds (1970 + k) m h h') in
          rw (e, before) (omega (arith, march-1969 k))
      | inr e ↦
          let y = 1969 + k + 1 in
          let first = row_late (leap_day y) m e (row_holds y m h h') in
          rw (e, after) (omega (arith, march-1969 k, march-suc (1969 + k)))
    ]

-- From 1970 on `days_from_civil` counts the days by the Gregorian calendar: those of the years
-- before, those of the months before, and those of the month before the day.
pub days_from_civil-calendar :
    (k m d : ℕ)
    → 1 ≤ m
    → m ≤ 12
    → 1 ≤ d
    → days_from_civil (pos (1970 + k)) (pos m) (pos d)
      ≡ pos (days_before_year k + days_before_month (leap_day (1970 + k)) m + (d - 1))
days_from_civil-calendar k m d h h' hd =
    let sum = civil_calendar k m d h h' hd in
    days_from_civil-pos (1970 + k) m d (omega arith) hd (omega arith) ∙ ap pos (omega arith)
