-- ===== src/Retry/RetryAfter.antt =====
-- src/retry.rs, `mod retry_after`: the header `Retry-After`, in seconds or as a date.
-- A text is the list of its bytes. `HeaderValue::to_str` yields ASCII only, so every index is a
-- character boundary. The i64 values stay below 2 ^ 39, so they are unbounded integers here.
pub mod Calendar
pub mod Dates
use Prim.Native.Char.{code}
use Prim.Native.String
use reqwest.Prelude.{
  ℕ, zero, suc, ◌+◌, ◌-◌, ◌*◌, ◌/◌, ◌%◌, ◌^◌, ◌<◌, Bool, true, false, not, ◌&&◌, ◌||◌, String,
  Option, none, some, ◌>>=◌, List, [], ◌∷◌, ◌++◌, length, take, drop, all, codes, ltb, leb, ◌==◌,
  if◌then◌else◌,
}
use reqwest.Prelude.Int.{ℤ, pos, negsuc, pos_part, neg_part, ◌+ℤ◌, ◌-ℤ◌, ◌*ℤ◌, ◌/ℤ◌, ◌%ℤ◌, leb_ℤ}

abbrev pub bytes_eq : List ℕ → List ℕ → Bool
bytes_eq [] [] = true
bytes_eq (x ∷ xs) (y ∷ ys) = x == y && bytes_eq xs ys
bytes_eq _ _ = false

abbrev pub is_digit : ℕ → Bool
is_digit c = leb b'0' c && leb c b'9'

-- `str::trim` on ASCII.
abbrev pub is_whitespace : ℕ → Bool
is_whitespace c = (leb 9 c && leb c 13) || c == 32

trim_start : List ℕ → List ℕ
trim_start [] = []
trim_start (c ∷ s) = if is_whitespace c then trim_start s else c ∷ s

trim_end : List ℕ → List ℕ
trim_end [] = []
trim_end (c ∷ s) = elim (trim_end s) [
  | [] ↦ if is_whitespace c then [] else c ∷ []
  | d ∷ r ↦ c ∷ d ∷ r
]

pub trim : List ℕ → List ℕ
unfolding trim_start trim_end
trim s = trim_end (trim_start s)

-- The number that a run of digits denotes.
abbrev pub digits_from : ℕ → List ℕ → ℕ
digits_from n [] = n
digits_from n (c ∷ s) = digits_from (n * 10 + (c - 48)) s

-- The digits of `str::parse`, with the largest value of the type.
parse_digits : ℕ → List ℕ → Option ℕ
parse_digits limit [] = none
parse_digits limit (c ∷ s) =
    if all is_digit (c ∷ s) && ltb (digits_from 0 (c ∷ s)) limit
    then some (digits_from 0 (c ∷ s))
    else none

-- `str::parse::<u64>`: one leading `+` is accepted.
pub parse_u64 : List ℕ → Option ℕ
unfolding parse_digits
parse_u64 [] = none
parse_u64 (c ∷ s) = parse_digits (2 ^ 64) (if c == b'+' then s else c ∷ s)

-- `num`: digits only, so no sign reaches `str::parse::<i64>`.
num : List ℕ → Option ℤ
num s = do
  let bytes_ok = all is_digit s
  n ← if bytes_ok then parse_digits (2 ^ 63) s else none
  some (pos n)

-- `&s[a..b]` by `get`: none when it is out of range.
abbrev pub slice : List ℕ → ℕ → ℕ → Option (List ℕ)
slice s a b = if leb b (length s) then some (take (b - a) (drop a s)) else none

month_number : List ℕ → Option ℤ
month_number s =
    if bytes_eq s (codes "Jan")
    then some (pos 1)
    else if bytes_eq s (codes "Feb")
    then some (pos 2)
    else if bytes_eq s (codes "Mar")
    then some (pos 3)
    else if bytes_eq s (codes "Apr")
    then some (pos 4)
    else if bytes_eq s (codes "May")
    then some (pos 5)
    else if bytes_eq s (codes "Jun")
    then some (pos 6)
    else if bytes_eq s (codes "Jul")
    then some (pos 7)
    else if bytes_eq s (codes "Aug")
    then some (pos 8)
    else if bytes_eq s (codes "Sep")
    then some (pos 9)
    else if bytes_eq s (codes "Oct")
    then some (pos 10)
    else if bytes_eq s (codes "Nov")
    then some (pos 11)
    else if bytes_eq s (codes "Dec")
    then some (pos 12)
    else none

-- Days since 1970-01-01, from a proleptic Gregorian date.
pub days_from_civil : ℤ → ℤ → ℤ → ℤ
days_from_civil year m d =
    let y = if leb_ℤ m (pos 2) then year -ℤ pos 1 else year in
    let era = (if leb_ℤ (pos 0) y then y else y -ℤ pos 399) /ℤ 400 in
    let yoe = y -ℤ era *ℤ pos 400 in
    let mp = (m +ℤ pos 9) %ℤ 12 in
    let doy = (pos 153 *ℤ mp +ℤ pos 2) /ℤ 5 +ℤ d -ℤ pos 1 in
    let doe = yoe *ℤ pos 365 +ℤ yoe /ℤ 4 -ℤ yoe /ℤ 100 +ℤ doy in
    era *ℤ pos 146097 +ℤ doe -ℤ pos 719468

-- `u64::try_from`.
abbrev pub to_u64 : ℤ → Option ℕ
to_u64 (pos n) = if ltb n (2 ^ 64) then some n else none
to_u64 (negsuc n) = none

gt : ℤ → ℕ → Bool
gt a b = not (leb_ℤ a (pos b))

-- The checks of the fields and the seconds since the epoch.
date_seconds : ℤ → ℤ → ℤ → ℤ → ℤ → ℤ → Option ℕ
unfolding gt
date_seconds year month day hour minute second =
    if gt hour 23
      || gt minute 59
      || gt second 60
      || (leb_ℤ day (pos 0) && leb_ℤ (pos 0) day)
      || gt day 31
    then none
    else to_u64 (
        days_from_civil year month day *ℤ pos 86400
        +ℤ hour *ℤ pos 3600
        +ℤ minute *ℤ pos 60
        +ℤ second)

-- The fields of `rest`, the text behind the weekday.
date_fields : List ℕ → Option ℕ
unfolding num month_number date_seconds
date_fields rest = do
  day ← num (← slice rest 0 2)
  month ← month_number (← slice rest 3 6)
  year ← num (← slice rest 7 11)
  hour ← num (← slice rest 12 14)
  minute ← num (← slice rest 15 17)
  second ← num (← slice rest 18 20)
  date_seconds year month day hour minute second

-- `http_date`: seconds since the epoch.
pub http_date : List ℕ → Option ℕ
unfolding date_fields
http_date s =
    let weekday = take 5 s in
    let rest = drop 5 s in
    if not (length s == 29)
    then none
    else if not (bytes_eq (drop 3 weekday) (codes ", "))
        || not (bytes_eq (drop 20 rest) (codes " GMT"))
    then none
    else date_fields rest

-- Nanoseconds in a second.
abbrev pub second : ℕ
second = 1000000000

-- `parse`, of the header's text, if there is one; `wall` is the time by the clock, in nanoseconds
-- since the epoch.
unfoldable pub parse : ℕ → Option (List ℕ) → Option ℕ
unfolding trim parse_u64 http_date
parse wall text = do
  value ← text
  elim (parse_u64 (trim value)) [
    | some seconds ↦ some (seconds * second)
    | none ↦ do
      at ← http_date (trim value)
      if leb wall (at * second) then some (at * second - wall) else none
  ]
