-- ===== src/Retry/Builder.antt =====
-- src/retry.rs, `Builder`: the configuration of a retry policy.
pub mod Standard
use reqwest.Prelude.{
  ℕ, ◌-◌, Bool, true, false, ◌&&◌, String, Option, none, some, List, [], ◌∷◌, str_eq, ltb,
  if◌then◌else◌,
}
use reqwest.Http.{Http}
use reqwest.Retry.Backoff.{Backoff, exponential, func, default}
use reqwest.Retry.Budget.{TpsBudget}
use reqwest.Retry.Classify.{
  Request, ReqRep, Action, Classifier, never, standard, status_codes, dyn, or,
}
use reqwest.Retry.Policy.{Policy, Scoped, unscoped}
use reqwest.Retry.Policy

pub record Builder (h : Http) (t : TpsBudget) : Type 0 where
  pub backoff : Backoff
  pub budget : Option t.Percent
  pub classifier : Classifier h
  pub max_retries_per_request : ℕ
  pub retry_transient_transport_errors : Bool
  pub scope : Scoped h

-- `req.uri().host().unwrap_or("")`.
abbrev pub host_of : {h : Http} → Request h → String
host_of {h} req = elim (h.host req.uri) [ none ↦ "" | some host ↦ host ]

module _ {h : Http} {t : TpsBudget} where
  abbrev pub with_scope : Scoped h → Builder h t
  with_scope scope = record {
    backoff = default;
    budget = some t.fifth;
    classifier = never;
    max_retries_per_request = 2;
    retry_transient_transport_errors = false;
    scope = scope;
  }

  unfoldable pub standard_builder : Builder h t
  standard_builder =
      let b : Builder h t = with_scope unscoped in
      record b { classifier = standard; retry_transient_transport_errors = true }

  unfoldable pub custom : Builder h t
  custom = with_scope unscoped

  unfoldable pub any_host : Builder h t
  unfolding custom
  any_host = custom

  -- `Builder::scoped`, of a function of the request.
  abbrev pub scoped : (Request h → Bool) → Builder h t
  scoped f = with_scope (Scoped.dyn f)

  unfoldable pub for_host : String → Builder h t
  for_host host = scoped (λ req. str_eq host (host_of req))

  pub with_backoff : Builder h t → ℕ → Builder h t
  with_backoff b base = record b { backoff = exponential base }

  pub backoff_fn : Builder h t → (ℕ → ℕ) → Builder h t
  backoff_fn b f = record b { backoff = func f }

  abbrev pub no_budget : Builder h t → Builder h t
  no_budget b = record b { budget = none }

  -- `none` is a failed assertion.
  pub max_extra_load : Builder h t → t.Percent → Option (Builder h t)
  max_extra_load b percent =
      if t.at_least_zero percent && t.at_most_thousand percent
      then some (record b { budget = some percent })
      else none

  pub max_retries_per_request : Builder h t → ℕ → Builder h t
  max_retries_per_request b max = record b { max_retries_per_request = max }

  unfoldable pub max_attempts : Builder h t → ℕ → Option (Builder h t)
  max_attempts b max =
      if ltb 0 max then some (record b { max_retries_per_request = max - 1 }) else none

  unfoldable pub never_builder : Builder h t
  unfolding custom
  never_builder = let b : Builder h t = no_budget custom in record b { max_retries_per_request = 0 }

  pub retry_on_transient_transport_errors : Builder h t → Builder h t
  retry_on_transient_transport_errors b = record b { retry_transient_transport_errors = true }

  pub retry_on_protocol_nacks : Builder h t → Builder h t
  unfolding retry_on_transient_transport_errors
  retry_on_protocol_nacks b = retry_on_transient_transport_errors b

  unfoldable pub retry_on_statuses : Builder h t → List ℕ → Builder h t
  retry_on_statuses b [] = b
  retry_on_statuses b (s ∷ ss) = record b { classifier = or b.classifier (status_codes (s ∷ ss)) }

  unfoldable pub retry_on_status : Builder h t → ℕ → Builder h t
  unfolding retry_on_statuses
  retry_on_status b s = retry_on_statuses b (s ∷ [])

  unfoldable pub with_classifier : Builder h t → (ReqRep h → Action) → Builder h t
  with_classifier b f = record b { classifier = or b.classifier (dyn f) }

  pub classify_fn : Builder h t → (ReqRep h → Action) → Builder h t
  unfolding with_classifier
  classify_fn b f = with_classifier b f

  unfoldable pub into_policy : Builder h t → Policy h t
  into_policy b = record {
    backoff = b.backoff;
    budget = b.budget;
    classifier = b.classifier;
    application_retry_cnt = 0;
    max_retries_per_request = b.max_retries_per_request;
    total_retry_cnt = 0;
    retry_transient_transport_errors = b.retry_transient_transport_errors;
    scope = b.scope;
  }
