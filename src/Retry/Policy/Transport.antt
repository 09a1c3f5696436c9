-- ===== src/Retry/Policy/Transport.antt =====
-- src/retry.rs, `Policy::retry`: what each kind of retry costs, and which results are retried.
use reqwest.Prelude.{◌+◌, ◌<◌, ◌≡◌, ap, ◌∙◌, true, none, some, arith, ◌⊎◌}
use reqwest.Http.{Http}
use reqwest.Retry.Budget.{TpsBudget, Hosts}
use reqwest.Retry.Classify.{retryable, Request, Outcome, classify}
use reqwest.Retry.Policy.Steps.{
  Answer, settled, exhausted, overdue, over_budget, granted, retry-Answer,
}
use reqwest.Retry.Policy.Limits.{IsValid, count-next, next}
use reqwest.Retry.Policy.{
  ready, failed_safely, Policy, Env, RetryKind, application, transient_transport, Retried, retry,
  retry_kind, deposit, wait_for, spend,
}

module _ {h : Http} {t : TpsBudget} (env : Env) (p : Policy h t) (hosts : Hosts t) (req : Request h)
    (result : Outcome h) (r : Retried h t) (answered : retry env p hosts req result ≡ some r) where
  -- A safe transport failure is retried at once while the limit allows it: nothing of any budget is
  -- spent, and only the count of all retries grows, so the backoff does not advance.
  pub retry_transport :
      retry_kind env p req result ≡ some transient_transport
      → IsValid p
      → p.total_retry_cnt < p.max_retries_per_request
      → (r.wait ≡ some ready)
        × (r.hosts ≡ hosts)
        × (r.policy ≡ record p { total_retry_cnt = p.total_retry_cnt + 1 })
  unfolding wait_for spend
  retry_transport is_kind v free = go (retry-Answer env p hosts req result r answered)
    where
      go :
          Answer env p hosts req result r
          → (r.wait ≡ some ready)
            × (r.hosts ≡ hosts)
            × (r.policy ≡ record p { total_retry_cnt = p.total_retry_cnt + 1 })
      go (settled k same) = cc
      go (exhausted kind k full same) = absurd (omega arith)
      go (overdue application k room w same) = cc
      go (overdue transient_transport k room w same) = cc
      go (over_budget application d k room w b same) = cc
      go (over_budget transient_transport d k room w b same) = cc
      go (granted application d p' k room w b c same) = cc
      go (granted transient_transport d p' k room w b c same) =
          let zero_wait : d ≡ 0 = cc in
          let grown = count-next env.checks p transient_transport v free in
          let there : p' ≡ next p transient_transport = cc in
          (
            ap (λ s. s.wait) same ∙ rw zero_wait,
            ap (λ s. s.hosts) same,
            ap (λ s. s.policy) same ∙ there,
          )

  -- A result that is not to be retried deposits to the host's budget, and changes nothing else.
  pub retry_settled :
      retry_kind env p req result ≡ none
      → r ≡ record { policy = p; hosts = deposit env p req hosts; wait = none }
  retry_settled k = go (retry-Answer env p hosts req result r answered)
    where
      go :
          Answer env p hosts req result r
          → r ≡ record { policy = p; hosts = deposit env p req hosts; wait = none }
      go (settled k' same) = same
      go (exhausted kind k' full same) = cc
      go (overdue kind k' room w same) = cc
      go (over_budget kind d k' room w b same) = cc
      go (granted kind d p' k' room w b c same) = cc

module _ {h : Http} {t : TpsBudget} (env : Env) (p : Policy h t) (req : Request h) where
  -- Why a result is retried: a safe failure of the transport, or the classifier.
  pub retry_kind-cases :
      (result : Outcome h) (kind : RetryKind)
      → retry_kind env p req result ≡ some kind
      → ((p.retry_transient_transport_errors ≡ true) × (failed_safely env result ≡ true))
        ⊎ (classify p.classifier req result ≡ retryable)
  unfolding retry_kind
  retry_kind-cases result kind e = ground arith
