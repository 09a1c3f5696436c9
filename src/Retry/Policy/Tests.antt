-- ===== src/Retry/Policy/Tests.antt =====
-- The theorems on the retry policy at concrete values.
use reqwest.Prelude.{ℕ, ◌+◌, ◌≤◌, ◌<◌, ◌≡◌, refl, true, none, some, [], ◌∷◌, arith}
use reqwest.Http.Plain.{plain_http}
use reqwest.Retry.Backoff.{exponential}
use reqwest.Retry.Backoff
use reqwest.Retry.RetryAfter.{parse}
use reqwest.Retry.Classify.{standard, classify, is_standard_retry, is_retryable_error}
use reqwest.Retry.Budget.{no_hosts, get, withdraw_at, deposit_at}
use reqwest.Retry.Policy.{
  Policy, Retried, retry, retry_kind, sleep, ready, application, transient_transport, unscoped,
  retry_after, deposit, delay, spend, count, add_one,
}
use reqwest.Retry.Samples.{plain_budget, env, request, unavailable, success, idle}
use reqwest.Retry.Policy.Limits.{next, IsValid, retries, retries-le}
use reqwest.Retry.Policy.Delays.{retry-deadline}
use reqwest.Retry.Policy.Total.{retries_total}

abbrev policy : Policy plain_http plain_budget
policy = record {
  backoff = exponential 100000000;
  budget = some 20;
  classifier = standard;
  application_retry_cnt = 0;
  max_retries_per_request = 2;
  total_retry_cnt = 0;
  retry_transient_transport_errors = true;
  scope = unscoped;
}

abbrev waiting : Retried plain_http plain_budget
waiting = record {
  policy = next policy application;
  hosts = record { map = ("a.test", 0) ∷ []; store = 19 ∷ [] };
  wait = some (sleep 2000000000);
}

retry_waits : retry env policy no_hosts request unavailable ≡ some waiting
unfolding retry retry_kind retry_after classify is_standard_retry delay Backoff.delay parse spend
    get withdraw_at deposit_at deposit is_retryable_error count add_one
retry_waits = refl

retried_once :
    retries ((env, request, unavailable) ∷ (env, request, success) ∷ []) policy no_hosts ≡ some 1
unfolding retry retry_kind retry_after classify is_standard_retry delay Backoff.delay parse spend
    get withdraw_at deposit_at deposit is_retryable_error count add_one
retried_once = refl

policy-IsValid : IsValid policy
policy-IsValid = record { applied = omega arith; limited = omega arith; sized = omega arith }

retries-le_example : 0 + 1 ≤ 2
retries-le_example =
    retries-le ((env, request, unavailable) ∷ (env, request, success) ∷ []) policy no_hosts 1
      policy-IsValid retried_once

retry-deadline_example : 0 + 2000000000 < 60000000000
retry-deadline_example =
    retry-deadline env policy request no_hosts unavailable waiting retry_waits 2000000000
      60000000000 refl refl

idle_kind : retry_kind env policy request idle ≡ some transient_transport
unfolding retry_kind classify is_standard_retry is_retryable_error
idle_kind = refl

abbrev reconnecting : Retried plain_http plain_budget
reconnecting = record {
  policy = next policy transient_transport;
  hosts = no_hosts;
  wait = some ready;
}

retry_reconnects : retry env policy no_hosts request idle ≡ some reconnecting
unfolding retry retry_kind retry_after classify is_standard_retry delay Backoff.delay parse spend
    get withdraw_at deposit_at deposit is_retryable_error count add_one
retry_reconnects = refl

success_kind : retry_kind env policy request success ≡ none
unfolding retry_kind classify is_standard_retry is_retryable_error
success_kind = refl

abbrev done : Retried plain_http plain_budget
done = record {
  policy = policy;
  hosts = record { map = ("a.test", 0) ∷ []; store = 21 ∷ [] };
  wait = none;
}

retry_finishes : retry env policy no_hosts request success ≡ some done
unfolding retry retry_kind retry_after classify is_standard_retry delay Backoff.delay parse spend
    get withdraw_at deposit_at deposit is_retryable_error count add_one
retry_finishes = refl

retries_total_example :
    (n : ℕ) × (retries ((env, request, unavailable) ∷ (env, request, success) ∷ []) policy no_hosts
      ≡ some n)
    × (0 + n ≤ 2)
retries_total_example =
    retries_total ((env, request, unavailable) ∷ (env, request, success) ∷ []) policy no_hosts
      100000000 policy-IsValid (omega arith, (omega arith, tt)) refl (omega arith)
