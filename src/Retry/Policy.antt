-- ===== src/Retry/Policy.antt =====
-- src/retry.rs, `Policy`: when a request is sent again, and after which delay.
-- The map of budgets is shared by all copies of a policy (an `Arc`), so it is passed apart from it.
-- `none` as the result of a step stands for a panic.
pub mod Steps
pub mod Limits
pub mod Delays
pub mod Transport
pub mod Total
mod Tests
use mathlib.Core.Option
use reqwest.Prelude.{
  ℕ, ◌+◌, ◌-◌, ◌%◌, ◌^◌, max, Bool, true, false, ◌&&◌, Option, none, some, ◌>>=◌, ltb, leb, ◌==◌,
  if◌then◌else◌, Result, ok, err,
}
use reqwest.Http.{Http}
use reqwest.Body.{try_clone}
use reqwest.Retry.Backoff.{Backoff}
use reqwest.Retry.Backoff
use reqwest.Retry.Budget.{TpsBudget, Hosts, get, deposit_at, withdraw_at}
use reqwest.Retry.Classify.{
  Request, Response, Outcome, Classifier, classify, success, retryable, Features,
  is_retryable_error,
}
use reqwest.Retry.RetryAfter.{parse}

pub data Scoped (h : Http) : Type 0 where
  unscoped : Scoped h
  dyn : (Request h → Bool) → Scoped h

pub record Policy (h : Http) (t : TpsBudget) : Type 0 where
  pub backoff : Backoff
  pub budget : Option t.Percent
  pub classifier : Classifier h
  pub application_retry_cnt : ℕ
  pub max_retries_per_request : ℕ
  pub total_retry_cnt : ℕ
  pub retry_transient_transport_errors : Bool
  pub scope : Scoped h

-- What a step reads of its surroundings: whether arithmetic is checked, the value of
-- `fast_random()`, `Instant::now()`, `SystemTime::now()` and the features.
pub record Env : Type 0 where
  pub checks : Bool
  pub random : ℕ
  pub now : ℕ
  pub wall : ℕ
  pub features : Features

pub data RetryKind : Type 0 where
  application transient_transport : RetryKind

pub data Delay : Type 0 where
  ready : Delay
  sleep : ℕ → Delay

abbrev pub new_delay : ℕ → Delay
new_delay d = if d == 0 then ready else sleep d

-- The duration of a delay.
abbrev pub duration : Delay → ℕ
duration ready = 0
duration (sleep d) = d

-- The last check of `Policy::delay`, on the request's deadline.
abbrev pub within : ℕ → Option ℕ → ℕ → Option ℕ
within wait none now = some wait
within wait (some deadline) now =
    if leb now deadline && ltb wait (deadline - now) then some wait else none

abbrev pub at_least : ℕ → Option ℕ → ℕ
at_least backoff none = backoff
at_least backoff (some after) = max backoff after

-- `+= 1` on u32.
unfoldable pub add_one : Bool → ℕ → Option ℕ
add_one checks n =
    if ltb (n + 1) (2 ^ 32) then some (n + 1) else if checks then none else some ((n + 1) % 2 ^ 32)

pub record Retried (h : Http) (t : TpsBudget) : Type 0 where
  pub policy : Policy h t
  pub hosts : Hosts t
  pub wait : Option Delay

module _ {h : Http} where
  -- `retry_after::parse` of the response's headers, if there is a response.
  unfoldable pub retry_after : Env → Option (Response h) → Option ℕ
  retry_after env res = do
    r ← res
    value ← h.get r.headers "retry-after"
    parse env.wall (h.to_str value)

  -- `result.as_ref().err().map(is_retryable_error).unwrap_or(false)`.
  abbrev pub failed_safely : Env → Outcome h → Bool
  failed_safely env (ok res) = false
  failed_safely env (err e) = is_retryable_error env.features e

  abbrev pub response : Outcome h → Option (Response h)
  response (ok res) = some res
  response (err e) = none

  abbrev pub applies_to : Scoped h → Request h → Bool
  applies_to unscoped req = true
  applies_to (dyn f) req = f req

  -- The copy of a request, where its body can be copied.
  copy : Request h → Option (Request h)
  copy req = do
    body ← try_clone req.body
    some (record {
      method = req.method;
      uri = req.uri;
      version = req.version;
      headers = req.headers;
      deadline = req.deadline;
      body = body;
    })

module _ {h : Http} {t : TpsBudget} where
  -- `Policy::delay`.
  pub delay : Env → Policy h t → Request h → Option (Response h) → Option (Option ℕ)
  delay env p req res = do
    backoff ← Backoff.delay env.checks env.random p.backoff p.application_retry_cnt
    let wait = at_least backoff (retry_after env res)
    some (if wait == 0 then some wait else within wait req.deadline env.now)

  unfoldable pub retry_kind : Env → Policy h t → Request h → Outcome h → Option RetryKind
  retry_kind env p req result =
      if p.retry_transient_transport_errors && failed_safely env result
      then some transient_transport
      else elim (classify p.classifier req result) [ retryable ↦ some application | success ↦ none ]

  abbrev pub refuse : Policy h t → Hosts t → Retried h t
  refuse p hosts = record { policy = p; hosts = hosts; wait = none }

  -- `budget.get(req).deposit()`, if there is a budget.
  pub deposit : Env → Policy h t → Request h → Hosts t → Hosts t
  deposit env p req hosts = elim p.budget [
    | none ↦ hosts
    | some percent ↦
        let found = get percent (h.authority req.uri) hosts in deposit_at env.now found.1 found.0
  ]

  -- `b.get(req).withdraw()`, true where there is no budget.
  withdraw : Env → Policy h t → Request h → Hosts t → Hosts t × Bool
  withdraw env p req hosts = elim p.budget [
    | none ↦ (hosts, true)
    | some percent ↦
        let found = get percent (h.authority req.uri) hosts in withdraw_at env.now found.1 found.0
  ]

  -- The counters of a granted retry.
  unfoldable pub count : Bool → Policy h t → RetryKind → Option (Policy h t)
  unfolding add_one
  count checks p application = do
    total ← add_one checks p.total_retry_cnt
    applied ← add_one checks p.application_retry_cnt
    some (record p { total_retry_cnt = total; application_retry_cnt = applied })
  count checks p transient_transport = do
    total ← add_one checks p.total_retry_cnt
    some (record p { total_retry_cnt = total })

  -- The delay and the budget by kind.
  pub wait_for : Env → Policy h t → Request h → Outcome h → RetryKind → Option (Option ℕ)
  wait_for env p req result application = delay env p req (response result)
  wait_for env p req result transient_transport = some (some 0)

  pub spend : Env → Policy h t → Request h → Hosts t → RetryKind → Hosts t × Bool
  unfolding withdraw
  spend env p req hosts application = withdraw env p req hosts
  spend env p req hosts transient_transport = (hosts, true)

  abbrev pub granted_by : Hosts t → ℕ → Policy h t → Retried h t
  granted_by hosts d p = record { policy = p; hosts = hosts; wait = some (new_delay d) }

  -- What follows once the delay is known.
  grant : Env → Policy h t → Request h → Hosts t → RetryKind → ℕ → Option (Retried h t)
  unfolding count spend
  grant env p req hosts kind d =
      let (hosts', within_budget) = spend env p req hosts kind in
      if within_budget
      then Option.map (granted_by hosts' d) (count env.checks p kind)
      else some (refuse p hosts')

  waited : Env → Policy h t → Hosts t → Request h → RetryKind → Option ℕ → Option (Retried h t)
  unfolding grant
  waited env p hosts req kind none = some (refuse p hosts)
  waited env p hosts req kind (some d) = grant env p req hosts kind d

  -- What `retry` does with a result that could be retried.
  attempt : Env → Policy h t → Hosts t → Request h → Outcome h → RetryKind → Option (Retried h t)
  unfolding wait_for waited
  attempt env p hosts req result kind =
      if leb p.max_retries_per_request p.total_retry_cnt
      then some (refuse p hosts)
      else wait_for env p req result kind >>= waited env p hosts req kind

  -- `Policy::retry`.
  unfoldable pub retry : Env → Policy h t → Hosts t → Request h → Outcome h → Option (Retried h t)
  unfolding deposit attempt
  retry env p hosts req result = elim (retry_kind env p req result) [
    | none ↦ some (refuse p (deposit env p req hosts))
    | some kind ↦ attempt env p hosts req result kind
  ]

  -- `Policy::clone_request`.
  unfoldable pub clone_request : Policy h t → Request h → Option (Request h)
  unfolding copy
  clone_request p req =
      if applies_to p.scope req
      then (if leb p.max_retries_per_request p.total_retry_cnt then none else copy req)
      else none
