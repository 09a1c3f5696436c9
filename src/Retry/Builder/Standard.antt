-- ===== src/Retry/Builder/Standard.antt =====
-- src/retry.rs: what the standard policy, the empty one and the builder's conditions retry.
use reqwest.Prelude.{
  ℕ, ◌+◌, ◌^◌, ◌<◌, ◌≡◌, ◌⊎◌, inl, inr, refl, sym, true, String, none, some, List, [], ◌∷◌, arith,
  ok, err, eq_iff,
}
use reqwest.Http.{Http}
use reqwest.Retry.Budget.{TpsBudget, Hosts}
use reqwest.Retry.Classify.{
  Request, Response, Outcome, Action, success, retryable, standard, status_codes, classify,
  is_standard_retry, is_status_code, req_rep, action,
}
use reqwest.Retry.Classify.Combine.{classify-or, either}
use reqwest.Retry.Policy.{Env, RetryKind, retry_kind, clone_request, failed_safely}
use reqwest.Retry.Policy.Limits.{retries, retries-le, IsValid, clone_request_iff}
use reqwest.Retry.Policy.Transport.{retry_kind-cases}
use reqwest.Retry.Builder.{
  Builder, standard_builder, never_builder, for_host, host_of, max_attempts, retry_on_statuses,
  into_policy,
}

module _ {h : Http} where
  -- What the standard policy may send again: after a safe failure of the transport, or after status
  -- 429 or 503 where the method is idempotent or the request has an idempotency key.
  pub data MayRetry (env : Env) (req : Request h) (result : Outcome h) : Type 0 where
    transport : failed_safely env result ≡ true → MayRetry env req result
    answered :
        (res : Response h)
        → result ≡ ok res
        → ((res.status ≡ 429) ⊎ (res.status ≡ 503))
        → ((h.is_idempotent req.method ≡ true)
            ⊎ (h.contains_key req.headers "idempotency-key" ≡ true))
        → MayRetry env req result

  standard-MayRetry :
      (env : Env) (req : Request h) (result : Outcome h)
      → classify standard req result ≡ retryable
      → MayRetry env req result
  unfolding classify is_standard_retry
  standard-MayRetry env req (ok res) e = answered res refl (ground arith) (ground arith)
  standard-MayRetry env req (err x) e = cc

  no_status :
      (a : Action) (req : Request h) (result : Outcome h)
      → a ≡ either a (action (is_status_code (req_rep h req result) []))
  unfolding is_status_code
  no_status retryable req result = refl
  no_status success req (ok res) = refl
  no_status success req (err x) = refl

module _ {h : Http} {t : TpsBudget} where
  into_policy-IsValid :
      (b : Builder h t) → b.max_retries_per_request < 2 ^ 32 → IsValid (into_policy b)
  unfolding into_policy
  into_policy-IsValid b fits = record { applied = omega arith; limited = omega arith; sized = fits }

  into_policy-limit :
      (b : Builder h t)
      → ((into_policy b).total_retry_cnt ≡ 0)
        × ((into_policy b).max_retries_per_request ≡ b.max_retries_per_request)
  unfolding into_policy
  into_policy-limit b = (refl, refl)

  -- With `max_attempts(max)`, of 32 bits, a request is sent again less than `max` times over a history in which
  -- no step panics, whatever the results.
  pub max_attempts-retries :
      (b b' : Builder h t) (max n : ℕ) (calls : List (Env × Request h × Outcome h))
      (hosts : Hosts t)
      → max < 2 ^ 32
      → max_attempts b max ≡ some b'
      → retries calls (into_policy b') hosts ≡ some n
      → n < max
  unfolding max_attempts
  max_attempts-retries b b' max n calls hosts fits e granted =
      let limit : b'.max_retries_per_request + 1 ≡ max = ground arith in
      let within =
        retries-le calls (into_policy b') hosts n (into_policy-IsValid b' (omega arith)) granted in
      let start = into_policy-limit b' in omega arith

  -- The policy of `never` copies no request, and whatever the results are, it retries none.
  pub never_builder-refuses :
      (req : Request h) (n : ℕ) (calls : List (Env × Request h × Outcome h)) (hosts : Hosts t)
      → retries calls (into_policy {t = t} never_builder) hosts ≡ some n
      → (clone_request (into_policy {t = t} never_builder) req ≡ none) × (n ≡ 0)
  unfolding never_builder into_policy clone_request
  never_builder-refuses req n calls hosts e =
      let never_sized : (never_builder {h = h} {t = t}).max_retries_per_request < 2 ^ 32 =
        omega arith in
      (
        ground arith,
        omega (
          arith,
          retries-le calls (into_policy {t = t} never_builder) hosts n
              (into_policy-IsValid never_builder never_sized) e,
        ),
      )

  -- The builder's conditions add up: the statuses are retried beside what was retried before.
  pub retry_on_statuses-classify :
      (b : Builder h t) (codes : List ℕ) (req : Request h) (result : Outcome h)
      → classify (retry_on_statuses b codes).classifier req result
        ≡ either
            (classify b.classifier req result)
            (action (is_status_code (req_rep h req result) codes))
  unfolding retry_on_statuses classify
  retry_on_statuses-classify b [] req result =
      no_status (classify b.classifier req result) req result
  retry_on_statuses-classify b (s ∷ ss) req result =
      classify-or req result b.classifier (status_codes (s ∷ ss))

-- A policy for one host copies a request only if the request goes to that host.
pub for_host-clone_request :
    (h : Http) (t : TpsBudget) (host : String) (req req' : Request h)
    → clone_request (into_policy {t = t} (for_host host)) req ≡ some req'
    → host_of req ≡ host
unfolding for_host into_policy
for_host-clone_request h t host req req' e =
    let scoped = ((clone_request_iff (into_policy {t = t} (for_host host)) req req').0 e).0 in
    sym ((eq_iff host (host_of req)).0 scoped)

-- The standard policy retries a result only after a safe failure of the transport, or after status
-- 429 or 503 where the method is idempotent or the request has an idempotency key.
pub standard_builder-MayRetry :
    (h : Http) (t : TpsBudget) (env : Env) (req : Request h) (result : Outcome h) (kind : RetryKind)
    → retry_kind env (into_policy {t = t} standard_builder) req result ≡ some kind
    → MayRetry env req result
unfolding standard_builder into_policy
standard_builder-MayRetry h t env req result kind e =
    elim (retry_kind-cases env (into_policy {t = t} standard_builder) req result kind e) [
      | inl (_, failed) ↦ transport failed
      | inr e' ↦ standard-MayRetry env req result e'
    ]
