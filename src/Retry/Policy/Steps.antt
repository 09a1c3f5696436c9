-- ===== src/Retry/Policy/Steps.antt =====
-- src/retry.rs, `Policy::retry` and `clone_request`: the answer of a step, branch by branch.
use mathlib.Core.Option
use reqwest.Prelude.{
  ℕ, ◌≤◌, ◌<◌, ◌≡◌, sym, true, false, Option, none, some, leb, arith, Bool-cases, leb→le,
  Option-cases, inl, inr,
}
use reqwest.Http.{Http}
use reqwest.Retry.Budget.{TpsBudget, Hosts}
use reqwest.Retry.Classify.{Request, Outcome}
use reqwest.Retry.Policy.{
  Policy, Env, RetryKind, Retried, retry, retry_kind, deposit, attempt, waited, wait_for, spend,
  grant, count, refuse, granted_by,
}

module _ {h : Http} {t : TpsBudget} where
  -- The five ways in which a step can end.
  pub data Answer (env : Env) (p : Policy h t) (hosts : Hosts t) (req : Request h)
      (result : Outcome h) (r : Retried h t) : Type 0 where
    settled :
        retry_kind env p req result ≡ none
        → r ≡ refuse p (deposit env p req hosts)
        → Answer env p hosts req result r
    exhausted :
        (kind : RetryKind)
        → retry_kind env p req result ≡ some kind
        → p.max_retries_per_request ≤ p.total_retry_cnt
        → r ≡ refuse p hosts
        → Answer env p hosts req result r
    overdue :
        (kind : RetryKind)
        → retry_kind env p req result ≡ some kind
        → p.total_retry_cnt < p.max_retries_per_request
        → wait_for env p req result kind ≡ some none
        → r ≡ refuse p hosts
        → Answer env p hosts req result r
    over_budget :
        (kind : RetryKind) (d : ℕ)
        → retry_kind env p req result ≡ some kind
        → p.total_retry_cnt < p.max_retries_per_request
        → wait_for env p req result kind ≡ some (some d)
        → (spend env p req hosts kind).1 ≡ false
        → r ≡ refuse p (spend env p req hosts kind).0
        → Answer env p hosts req result r
    granted :
        (kind : RetryKind) (d : ℕ) (p' : Policy h t)
        → retry_kind env p req result ≡ some kind
        → p.total_retry_cnt < p.max_retries_per_request
        → wait_for env p req result kind ≡ some (some d)
        → (spend env p req hosts kind).1 ≡ true
        → count env.checks p kind ≡ some p'
        → r ≡ granted_by (spend env p req hosts kind).0 d p'
        → Answer env p hosts req result r

  module _ (env : Env) (p : Policy h t) (hosts : Hosts t) (req : Request h) (result : Outcome h)
      (r : Retried h t) where
    grant-Answer :
        (kind : RetryKind) (d : ℕ)
        → retry_kind env p req result ≡ some kind
        → p.total_retry_cnt < p.max_retries_per_request
        → wait_for env p req result kind ≡ some (some d)
        → grant env p req hosts kind d ≡ some r
        → Answer env p hosts req result r
    unfolding grant
    grant-Answer kind d k room w e = elim (Bool-cases (spend env p req hosts kind).1) [
      | inl within ↦
          let (p', counted, same) = (Option.map-eq-some_iff _ _).0 (rw (within, grant) at e) in
          granted kind d p' k room w within counted (sym same)
      | inr empty ↦ over_budget kind d k room w empty (cc (rw (empty, grant) at e))
    ]

    waited-Answer :
        (kind : RetryKind) (wait : Option ℕ)
        → retry_kind env p req result ≡ some kind
        → p.total_retry_cnt < p.max_retries_per_request
        → wait_for env p req result kind ≡ some wait
        → waited env p hosts req kind wait ≡ some r
        → Answer env p hosts req result r
    unfolding waited
    waited-Answer kind none k room w e = overdue kind k room w cc
    waited-Answer kind (some d) k room w e = grant-Answer kind d k room w e

    attempt-Answer :
        (kind : RetryKind)
        → retry_kind env p req result ≡ some kind
        → attempt env p hosts req result kind ≡ some r
        → Answer env p hosts req result r
    unfolding attempt
    attempt-Answer kind k e = elim (Bool-cases (leb p.max_retries_per_request p.total_retry_cnt)) [
      | inl full ↦ exhausted kind k (leb→le _ _ full) (cc (rw (full, attempt) at e))
      | inr free ↦ elim (Option-cases (wait_for env p req result kind)) [
        | inl panic ↦ cc (rw (free, attempt, panic) at e)
        | inr (wait, w) ↦ waited-Answer kind wait k (ground arith) w (rw (free, attempt, w) at e)
      ]
    ]

    -- A step that does not panic ends in one of the five ways, with the policy, the budgets and the
    -- delay that belong to it.
    pub retry-Answer : retry env p hosts req result ≡ some r → Answer env p hosts req result r
    unfolding retry
    retry-Answer e = elim (Option-cases (retry_kind env p req result)) [
      | inl k ↦ settled k (cc (rw (k, retry) at e))
      | inr (kind, k) ↦ attempt-Answer kind k (rw (k, retry) at e)
    ]
