-- ===== src/Retry/Policy/Total.antt =====
-- src/retry.rs, `Policy::retry`: when a step panics.
use reqwest.Prelude.{
  ◌+◌, ◌∙◌, List, [], ◌∷◌, All, arith, ◌^◌, ℕ, ◌≤◌, ◌<◌, ◌≡◌, refl, Option, none, some, leb,
  Bool-cases, Option-cases, inl, inr,
}
use reqwest.Http.{Http}
use reqwest.Retry.Budget.{TpsBudget, Hosts}
use reqwest.Retry.Classify.{Response, Request, Outcome}
use reqwest.Retry.Backoff.{exponential}
use reqwest.Retry.Backoff.Bounds.{delay_bounds}
use reqwest.Retry.Policy.Delays.{checked}
use reqwest.Retry.Policy.Limits.{
  IsValid, count-next, next, retries, retries-le, retry-IsValid, Advanced-counts, retry-Advanced,
  granted_count,
}
use reqwest.Retry.Policy.{
  grant, granted_by, spend, delay, at_least, retry_after, response, Policy, Env, RetryKind,
  application, transient_transport, Retried, retry, retry_kind, deposit, attempt, waited, wait_for,
  refuse,
}

module _ {h : Http} {t : TpsBudget} (env : Env) (p : Policy h t) (hosts : Hosts t) where
  delay_total :
      (req : Request h) (res : Option (Response h)) (base : ℕ)
      → env.random < 2 ^ 64
      → p.backoff ≡ exponential base
      → base ≤ 2 ^ 45
      → (w : Option ℕ) × (delay env p req res ≡ some w)
  unfolding delay
  delay_total req res base r e k =
      let (b, found, _, _) = delay_bounds env.checks env.random base p.application_retry_cnt r k in
      (checked (at_least b (retry_after env res)) req.deadline env.now, rw (e, found))

  wait_for_total :
      (req : Request h) (result : Outcome h) (kind : RetryKind) (base : ℕ)
      → env.random < 2 ^ 64
      → p.backoff ≡ exponential base
      → base ≤ 2 ^ 45
      → (w : Option ℕ) × (wait_for env p req result kind ≡ some w)
  unfolding wait_for
  wait_for_total req result application base r e k = delay_total req (response result) base r e k
  wait_for_total req result transient_transport base r e k = (some 0, refl)

  grant_total :
      (req : Request h) (kind : RetryKind) (d : ℕ)
      → IsValid p
      → p.total_retry_cnt < p.max_retries_per_request
      → (r : Retried h t) × (grant env p req hosts kind d ≡ some r)
  unfolding grant
  grant_total req kind d v room = elim (Bool-cases (spend env p req hosts kind).1) [
    | inl within ↦ (
      granted_by (spend env p req hosts kind).0 d (next p kind),
      rw (within, grant, count-next env.checks p kind v room) refl,
    )
    | inr empty ↦ (refuse p (spend env p req hosts kind).0, rw (empty, grant) refl)
  ]

  waited_total :
      (req : Request h) (kind : RetryKind) (wait : Option ℕ)
      → IsValid p
      → p.total_retry_cnt < p.max_retries_per_request
      → (r : Retried h t) × (waited env p hosts req kind wait ≡ some r)
  unfolding waited
  waited_total req kind none v room = (refuse p hosts, refl)
  waited_total req kind (some d) v room = grant_total req kind d v room

  attempt_total :
      (req : Request h) (result : Outcome h) (kind : RetryKind) (base : ℕ)
      → IsValid p
      → env.random < 2 ^ 64
      → p.backoff ≡ exponential base
      → base ≤ 2 ^ 45
      → (r : Retried h t) × (attempt env p hosts req result kind ≡ some r)
  unfolding attempt
  attempt_total req result kind base v r e k =
      elim (Bool-cases (leb p.max_retries_per_request p.total_retry_cnt)) [
        | inl full ↦ (refuse p hosts, rw full)
        | inr free ↦
            let (w, found) = wait_for_total req result kind base r e k in
            let (answer, granted) = waited_total req kind w v (ground arith) in
            (answer, rw (free, found) granted)
      ]

  retry_total :
      (req : Request h) (result : Outcome h) (base : ℕ)
      → IsValid p
      → env.random < 2 ^ 64
      → p.backoff ≡ exponential base
      → base ≤ 2 ^ 45
      → (r : Retried h t) × (retry env p hosts req result ≡ some r)
  unfolding retry
  retry_total req result base v r e k = elim (Option-cases (retry_kind env p req result)) [
    | inl done ↦ (refuse p (deposit env p req hosts), rw (done, retry))
    | inr (kind, is_kind) ↦
        let (answer, found) = attempt_total req result kind base v r e k in
        (answer, rw (is_kind, retry) found)
  ]

-- A random number of 64 bits.
abbrev pub IsRandom : {h : Http} → Env × Request h × Outcome h → Type 0
IsRandom call = call.0.random < 2 ^ 64

module _ {h : Http} {t : TpsBudget} where
  -- No history of results makes a policy panic, in any build profile, whose counters are within its
  -- limits, of 32 bits, and whose backoff is exponential with a base of at most 2 ^ 45 nanoseconds,
  -- where each random number has 64 bits: every step has an answer, neither the backoff nor a counter
  -- overflows, and the retries that were granted keep to the limit.
  pub retries_total :
      (calls : List (Env × Request h × Outcome h)) (p : Policy h t) (hosts : Hosts t) (base : ℕ)
      → IsValid p
      → All IsRandom calls
      → p.backoff ≡ exponential base
      → base ≤ 2 ^ 45
      → (n : ℕ) × (retries calls p hosts ≡ some n)
        × (p.total_retry_cnt + n ≤ p.max_retries_per_request)
  retries_total [] p hosts base v random e k = (0, refl, retries-le [] p hosts 0 v refl)
  retries_total ((env, req, result) ∷ rest) p hosts base v (small, random) e k =
      let (r, step) = retry_total env p hosts req result base v small e k in
      let (grown, limit, same) = Advanced-counts (retry-Advanced env p hosts req result r v step) in
      let (n, found, within) =
        retries_total rest r.policy r.hosts base (retry-IsValid env p hosts req result r v step)
          random (same ∙ e) k in
      let whole : retries ((env, req, result) ∷ rest) p hosts ≡ some (granted_count r.wait + n) =
        rw (step, found) refl in
      (
        granted_count r.wait + n,
        whole,
        retries-le ((env, req, result) ∷ rest) p hosts (granted_count r.wait + n) v whole,
      )
