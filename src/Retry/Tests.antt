-- ===== src/Retry/Tests.antt =====
-- The theorems on backoff, `Retry-After`, classifiers, budgets and the builder at concrete values.
use reqwest.Prelude.{ℕ, ◌+◌, ◌-◌, ◌*◌, ◌/◌, ◌^◌, ◌≤◌, ◌≡◌, refl, true, none, some, [], ◌∷◌, arith}
use reqwest.Prelude.Int.{pos}
use reqwest.Http.Plain.{plain_http}
use reqwest.Body.{try_clone}
use reqwest.Retry.Backoff.{exponential, jitter, factor}
use reqwest.Retry.Backoff
use reqwest.Retry.Backoff.Bounds.{delay_bounds, delay_overflow}
use reqwest.Retry.RetryAfter.{days_from_civil, http_date}
use reqwest.Retry.RetryAfter.Calendar.{
  days_from_civil-calendar, days_before_year, days_before_month, leap_day,
}
use reqwest.Retry.RetryAfter.Dates.{imf_date, http_date-imf_date, calendar_seconds}
use reqwest.Retry.Classify.{classify, is_standard_retry}
use reqwest.Retry.Budget.{Hosts, no_hosts, get}
use reqwest.Retry.Budget.Isolation.{get-IsValid, get-get, budget_of, budget_of_other}
use reqwest.Retry.Budget.Isolation
use reqwest.Retry.Policy.{retry, retry_kind, clone_request, application}
use reqwest.Retry.Policy.Limits.{retries}
use reqwest.Retry.Builder.{Builder, standard_builder, custom, for_host, max_attempts, into_policy}
use reqwest.Retry.Samples.{plain_budget, env, request, unavailable, success}

delay_bounds_example :
    (d : ℕ) × (Backoff.delay true 7 (exponential 100000000) 3 ≡ some d)
    × (100000000 * factor 3 / 2 ≤ d)
    × (d ≤ 100000000 * factor 3)
delay_bounds_example = delay_bounds true 7 100000000 3 (omega arith) (omega arith)

delay_overflow_example : Backoff.delay true (2 ^ 63) (exponential (2 ^ 46)) 20 ≡ none
delay_overflow_example =
    delay_overflow (2 ^ 63) (2 ^ 46) 20 (omega arith) (omega arith) (omega arith)

days_from_civil-calendar_example :
    days_from_civil (pos (1970 + 30)) (pos 3) (pos 1)
    ≡ pos (days_before_year 30 + days_before_month (leap_day (1970 + 30)) 3 + (1 - 1))
days_from_civil-calendar_example =
    days_from_civil-calendar 30 3 1 (omega arith) (omega arith) (omega arith)

http_date-imf_date_example :
    http_date (imf_date 83 117 110 32 32 32 58 58 24 11 6 8 49 37)
    ≡ some (calendar_seconds 24 11 6 8 49 37)
http_date-imf_date_example =
    http_date-imf_date 83 117 110 32 32 32 58 58 24 11 6 8 49 37 (omega arith) (omega arith)
      (omega arith) (omega arith) (omega arith) (omega arith) (omega arith) (omega arith)

empty-IsValid : Isolation.IsValid (no_hosts {t = plain_budget})
empty-IsValid = record { bounded = omega arith; handles = tt }

get-IsValid_example : Isolation.IsValid (get {t = plain_budget} 20 (some "a.test") no_hosts).0
get-IsValid_example = get-IsValid 20 (some "a.test") no_hosts empty-IsValid

get-get_example :
    get {t = plain_budget} 20 (some "a.test") (get {t = plain_budget} 20 (some "a.test") no_hosts).0
    ≡ get 20 (some "a.test") no_hosts
get-get_example = get-get {t = plain_budget} 20 (some "a.test") no_hosts

abbrev one_host : Hosts plain_budget
one_host = record { map = ("b.test", 0) ∷ []; store = 7 ∷ [] }

standard_kind :
    retry_kind env (into_policy {t = plain_budget} standard_builder) request unavailable
    ≡ some application
unfolding retry_kind standard_builder into_policy classify is_standard_retry
standard_kind = refl

abbrev two_attempts : Builder plain_http plain_budget
two_attempts = record custom { max_retries_per_request = 1 }

set_attempts : max_attempts custom 2 ≡ some two_attempts
unfolding max_attempts custom
set_attempts = refl

no_retries : retries ((env, request, success) ∷ []) (into_policy two_attempts) no_hosts ≡ some 0
unfolding retry retry_kind into_policy classify custom
no_retries = refl

local_copy :
    clone_request (into_policy {t = plain_budget} (for_host "a.test")) request ≡ some request
unfolding clone_request into_policy for_host try_clone
local_copy = refl
