-- ===== src/Retry/Policy/Limits.antt =====
-- src/retry.rs, `Policy::retry` and `clone_request`: how often a request is sent again.
use mathlib.Core.Path.{subst}
use reqwest.Prelude.{
  ℕ, ◌+◌, ◌^◌, ◌∙◌, Bool, ◌≤◌, ◌<◌, ◌≡◌, ◌↔◌, refl, sym, ap, true, Option, none, some, List, [],
  ◌∷◌, ◌>>=◌, arith, Option-cases, inl, inr,
}
use reqwest.Http.{Http}
use reqwest.Retry.Budget.{TpsBudget, Hosts}
use reqwest.Retry.Classify.{Request, Outcome}
use reqwest.Body.{reusable, try_clone}
use reqwest.Retry.Policy.Steps.{
  Answer, settled, exhausted, overdue, over_budget, granted, retry-Answer,
}
use reqwest.Retry.Policy.{
  Policy, Env, RetryKind, application, transient_transport, Delay, Retried, retry, count, add_one,
  clone_request, applies_to, new_delay,
}

abbrev pub granted_count : Option Delay → ℕ
granted_count none = 0
granted_count (some d) = 1

later :
    (i : ℕ) {n : ℕ} (o : Option ℕ)
    → (o >>= λ k. some (i + k)) ≡ some n
    → (k : ℕ) × (o ≡ some k) × (i + k ≡ n)
later i none e = cc
later i (some k) e = (k, refl, cc)

add_one_fits : (checks : Bool) (n : ℕ) → n + 1 < 2 ^ 32 → add_one checks n ≡ some (n + 1)
unfolding add_one
add_one_fits checks n fits = ground arith

module _ {h : Http} {t : TpsBudget} where
  -- The counters advanced by one.
  abbrev pub next : Policy h t → RetryKind → Policy h t
  next p application = record p {
    total_retry_cnt = p.total_retry_cnt + 1;
    application_retry_cnt = p.application_retry_cnt + 1;
  }
  next p transient_transport = record p { total_retry_cnt = p.total_retry_cnt + 1 }

  -- A step either refuses and leaves the counters alone, or counts one retry under the limit.
  data Counted (p : Policy h t) (r : Retried h t) : Type 0 where
    kept : r.wait ≡ none → r.policy ≡ p → Counted p r
    counted :
        (checks : Bool) (kind : RetryKind) (d : ℕ) (p' : Policy h t)
        → r.wait ≡ some (new_delay d)
        → p.total_retry_cnt < p.max_retries_per_request
        → count checks p kind ≡ some p'
        → r.policy ≡ p'
        → Counted p r

  Answer-Counted :
      {env : Env} {p : Policy h t} {hosts : Hosts t} {req : Request h} {result : Outcome h}
      {r : Retried h t}
      → Answer env p hosts req result r
      → Counted p r
  Answer-Counted (settled k e) = kept (ap (λ s. s.wait) e) (ap (λ s. s.policy) e)
  Answer-Counted (exhausted kind k full e) = kept (ap (λ s. s.wait) e) (ap (λ s. s.policy) e)
  Answer-Counted (overdue kind k room w e) = kept (ap (λ s. s.wait) e) (ap (λ s. s.policy) e)
  Answer-Counted (over_budget kind d k room w b e) =
      kept (ap (λ s. s.wait) e) (ap (λ s. s.policy) e)
  Answer-Counted {env} (granted kind d p' k room w b c e) =
      counted env.checks kind d p' (ap (λ s. s.wait) e) room c (ap (λ s. s.policy) e)

  retry-Counted :
      (env : Env) (p : Policy h t) (hosts : Hosts t) (req : Request h) (result : Outcome h)
      (r : Retried h t)
      → retry env p hosts req result ≡ some r
      → Counted p r
  retry-Counted env p hosts req result r e =
      Answer-Counted (retry-Answer env p hosts req result r e)

  pub record IsValid (p : Policy h t) : Type 0 where
    pub applied : p.application_retry_cnt ≤ p.total_retry_cnt
    pub limited : p.total_retry_cnt ≤ p.max_retries_per_request
    pub sized : p.max_retries_per_request < 2 ^ 32

  -- Under the limit no counter overflows: one is added to each that the kind counts.
  pub count-next :
      (checks : Bool) (p : Policy h t) (kind : RetryKind)
      → IsValid p
      → p.total_retry_cnt < p.max_retries_per_request
      → count checks p kind ≡ some (next p kind)
  unfolding count
  count-next checks p application v room =
      let applied = v.applied in
      let sized = v.sized in
      rw
        (
          add_one_fits checks p.total_retry_cnt (omega arith),
          add_one_fits checks p.application_retry_cnt (omega arith),
        )
        refl
  count-next checks p transient_transport v room =
      let sized = v.sized in rw (add_one_fits checks p.total_retry_cnt (omega arith)) refl

  next-IsValid :
      (p : Policy h t) (kind : RetryKind)
      → IsValid p
      → p.total_retry_cnt < p.max_retries_per_request
      → IsValid (next p kind)
  next-IsValid p application v room =
      let applied = v.applied in
      let sized = v.sized in record { applied = omega arith; limited = omega arith; sized = sized }
  next-IsValid p transient_transport v room =
      let applied = v.applied in
      let sized = v.sized in record { applied = omega arith; limited = omega arith; sized = sized }

  -- A granted retry leaves the policy with its counters advanced.
  pub data Advanced (p : Policy h t) (r : Retried h t) : Type 0 where
    same_counts : r.wait ≡ none → r.policy ≡ p → Advanced p r
    next_counts :
        (kind : RetryKind) (d : ℕ)
        → r.wait ≡ some (new_delay d)
        → p.total_retry_cnt < p.max_retries_per_request
        → r.policy ≡ next p kind
        → Advanced p r

  Counted-Advanced : {p : Policy h t} {r : Retried h t} → IsValid p → Counted p r → Advanced p r
  Counted-Advanced v (kept e same) = same_counts e same
  Counted-Advanced {p} v (counted checks kind d p' e room c same) =
      let grown = count-next checks p kind v room in
      let there : p' ≡ next p kind = cc in next_counts kind d e room (same ∙ there)

  Advanced-IsValid :
      {p : Policy h t} {r : Retried h t} → Advanced p r → IsValid p → IsValid r.policy
  Advanced-IsValid (same_counts e same) v = subst IsValid (sym same) v
  Advanced-IsValid {p} (next_counts kind d e room same) v =
      subst IsValid (sym same) (next-IsValid p kind v room)

  -- Every step keeps the retries that advance the backoff within all retries, and those within the
  -- limit per request.
  pub retry-IsValid :
      (env : Env) (p : Policy h t) (hosts : Hosts t) (req : Request h) (result : Outcome h)
      (r : Retried h t)
      → IsValid p
      → retry env p hosts req result ≡ some r
      → IsValid r.policy
  retry-IsValid env p hosts req result r v e =
      Advanced-IsValid (Counted-Advanced v (retry-Counted env p hosts req result r e)) v

  -- The retries that a policy grants over a history of results; `none` if a step panics.
  abbrev pub retries : List (Env × Request h × Outcome h) → Policy h t → Hosts t → Option ℕ
  retries [] p hosts = some 0
  retries ((env, req, result) ∷ rest) p hosts = do
    r ← retry env p hosts req result
    n ← retries rest r.policy r.hosts
    some (granted_count r.wait + n)

  pub Advanced-counts :
      {p : Policy h t} {r : Retried h t}
      → Advanced p r
      → (r.policy.total_retry_cnt ≡ p.total_retry_cnt + granted_count r.wait)
        × (r.policy.max_retries_per_request ≡ p.max_retries_per_request)
        × (r.policy.backoff ≡ p.backoff)
  Advanced-counts (same_counts e same) = ground arith
  Advanced-counts (next_counts application d e room same) = ground arith
  Advanced-counts (next_counts transient_transport d e room same) = ground arith

  pub retry-Advanced :
      (env : Env) (p : Policy h t) (hosts : Hosts t) (req : Request h) (result : Outcome h)
      (r : Retried h t)
      → IsValid p
      → retry env p hosts req result ≡ some r
      → Advanced p r
  retry-Advanced env p hosts req result r v e =
      Counted-Advanced v (retry-Counted env p hosts req result r e)

  -- From a policy that is within its limits, of 32 bits, whatever the results are, the retries of one
  -- request over a history in which no step panics never pass the limit per request.
  pub retries-le :
      (calls : List (Env × Request h × Outcome h)) (p : Policy h t) (hosts : Hosts t) (n : ℕ)
      → IsValid p
      → retries calls p hosts ≡ some n
      → p.total_retry_cnt + n ≤ p.max_retries_per_request
  retries-le [] p hosts n v e = ground arith
  retries-le ((env, req, result) ∷ rest) p hosts n v e =
      elim (Option-cases (retry env p hosts req result)) [
        | inl panic ↦ cc (rw panic at e)
        | inr (r, step) ↦
            let valid = retry-IsValid env p hosts req result r v step in
            let (k, found, sum) =
              later (granted_count r.wait) (retries rest r.policy r.hosts) (rw step at e) in
            let (grown, limit, _) =
              Advanced-counts (retry-Advanced env p hosts req result r v step) in
            omega (arith, retries-le rest r.policy r.hosts k valid found)
      ]

  -- A copy of a request is made exactly when the request is in scope, the limit is not reached and
  -- the body lies in memory; the copy equals the request.
  pub clone_request_iff :
      (p : Policy h t) (req req' : Request h)
      → (clone_request p req ≡ some req') ↔ (
          (applies_to p.scope req ≡ true)
          × (p.total_retry_cnt < p.max_retries_per_request)
          × ((bytes : List ℕ) × (req.body ≡ reusable bytes))
          × (req' ≡ req))
  unfolding clone_request try_clone
  clone_request_iff p req req' = ground arith
