-- ===== src/Retry/Policy/Delays.antt =====
-- src/retry.rs, `Policy::delay`: the deadline and the header `Retry-After`.
use reqwest.Prelude.{
  ℕ, ◌+◌, ◌<◌, ◌≡◌, sym, ap, ◌∙◌, Option, none, some, if◌then◌else◌, arith, ◌==◌, Option-cases, inl,
  inr,
}
use reqwest.Http.{Http}
use reqwest.Retry.Budget.{TpsBudget, Hosts}
use reqwest.Retry.Classify.{Response, Request, Outcome}
use reqwest.Retry.Policy.Steps.{
  Answer, settled, exhausted, overdue, over_budget, granted, retry-Answer,
}
use reqwest.Retry.Backoff
use reqwest.Retry.Policy.{
  delay, within, at_least, retry_after, response, sleep, Policy, Env, RetryKind, application,
  transient_transport, Retried, retry, wait_for, new_delay,
}

-- The last check of `delay`.
abbrev pub checked : ℕ → Option ℕ → ℕ → Option ℕ
checked wait deadline now = if wait == 0 then some wait else within wait deadline now

checked-lt :
    (wait : ℕ) (deadline : Option ℕ) (now d : ℕ) {at : ℕ}
    → checked wait deadline now ≡ some d
    → 0 < d
    → deadline ≡ some at
    → now + d < at
checked-lt wait none now d e pos q = cc
checked-lt wait (some at') now d e pos q = ground arith

sleep_of : {d wait : ℕ} → some (new_delay wait) ≡ some (sleep d) → (wait ≡ d) × (0 < d)
sleep_of {d} {wait} e = ground arith

module _ {h : Http} {t : TpsBudget} (env : Env) (p : Policy h t) (req : Request h) where
  -- Inversion of `delay`: the wait that was asked for, and that the deadline admits it.
  delay-eq :
      (res : Option (Response h)) (d : ℕ)
      → delay env p req res ≡ some (some d)
      → (b : ℕ) × (Backoff.delay env.checks env.random p.backoff p.application_retry_cnt ≡ some b)
        × (checked (at_least b (retry_after env res)) req.deadline env.now ≡ some d)
  unfolding delay
  delay-eq res d e =
      elim (Option-cases (Backoff.delay env.checks env.random p.backoff p.application_retry_cnt)) [
        | inl panic ↦ cc (rw (panic, delay) at e)
        | inr (b, found) ↦ (b, found, cc (rw (found, delay) at e))
      ]

  module _ (hosts : Hosts t) (result : Outcome h) (r : Retried h t)
      (answered : retry env p hosts req result ≡ some r) where
    wait_for-lt :
        (kind : RetryKind) (d : ℕ) {at : ℕ}
        → wait_for env p req result kind ≡ some (some d)
        → 0 < d
        → req.deadline ≡ some at
        → env.now + d < at
    unfolding wait_for
    wait_for-lt application d e pos q =
        let (b, found, check) = delay-eq (response result) d e in
        checked-lt (at_least b (retry_after env (response result))) req.deadline env.now d check pos
          q
    wait_for-lt transient_transport d e pos q = let zero_wait : 0 ≡ d = cc in absurd (omega arith)

    -- A retry that sleeps wakes up before the deadline of the request, if it has one.
    pub retry-deadline :
        (d at : ℕ) → r.wait ≡ some (sleep d) → req.deadline ≡ some at → env.now + d < at
    retry-deadline d at e q = go (retry-Answer env p hosts req result r answered)
      where
        go : Answer env p hosts req result r → env.now + d < at
        go (settled k same) = cc (ap (λ s. s.wait) same)
        go (exhausted kind k full same) = cc (ap (λ s. s.wait) same)
        go (overdue kind k room w same) = cc (ap (λ s. s.wait) same)
        go (over_budget kind d' k room w b same) = cc (ap (λ s. s.wait) same)
        go (granted kind d' p' k room w b c same) =
            let (same_d, pos) = sleep_of (sym (ap (λ s. s.wait) same) ∙ e) in
            wait_for-lt kind d (rw same_d at w) pos q
