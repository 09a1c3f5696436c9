-- ===== src/Retry/Classify.antt =====
-- src/retry.rs, `mod classify` and `is_retryable_error`: which results may be retried.
pub mod Combine
use reqwest.Prelude.{
  ℕ, Bool, true, false, ◌&&◌, ◌||◌, String, Option, none, some, List, [], ◌∷◌, any, str_eq, ◌==◌,
  if◌then◌else◌, Result, ok, err,
}
use reqwest.Http.{Http}
use reqwest.Body.{Body}
use reqwest.Error.{Error, Source, end, h2, h3_connection, H2Error, cause}

-- `http::Request<Body>`; of its extensions, the `Deadline`, an instant in nanoseconds.
pub record Request (h : Http) : Type 0 where
  pub method : h.Method
  pub uri : h.Uri
  pub version : h.Version
  pub headers : h.HeaderMap
  pub deadline : Option ℕ
  pub body : Body

-- The part of `http::Response` that the policy reads.
pub record Response (h : Http) : Type 0 where
  pub status : ℕ
  pub headers : h.HeaderMap

abbrev pub Outcome : Http → Type 0
Outcome h = Result (Response h) (Error h.Url)

pub data Action : Type 0 where
  success retryable : Action

-- `ReqRep`: the request, and the status or the error.
pub record ReqRep (h : Http) : Type 0 where
  pub request : Request h
  pub result : Result ℕ (Error h.Url)

abbrev pub req_rep : (h : Http) → Request h → Outcome h → ReqRep h
req_rep h r (ok res) = record { request = r; result = ok res.status }
req_rep h r (err e) = record { request = r; result = err e }

abbrev pub is_transient : Option ℕ → Bool
is_transient none = false
is_transient (some code) = code == 429 || code == 503

abbrev pub action : Bool → Action
action b = if b then retryable else success

mutual
  pub data Classifier (h : Http) : Type 0 where
    never standard : Classifier h
    status_codes : List ℕ → Classifier h
    dyn : (ReqRep h → Action) → Classifier h
    any_of : Classifiers h → Classifier h

  pub data Classifiers (h : Http) : Type 0 where
    nil : Classifiers h
    cons : Classifier h → Classifiers h → Classifiers h

module _ {h : Http} where
  abbrev pub status : ReqRep h → Option ℕ
  status r = elim r.result [ ok code ↦ some code | err e ↦ none ]

  unfoldable pub is_status_code : ReqRep h → List ℕ → Bool
  is_status_code r codes = elim (status r) [ none ↦ false | some code ↦ any (λ c. c == code) codes ]

  unfoldable pub is_standard_retry : ReqRep h → Bool
  is_standard_retry r =
      is_transient (status r)
      && (h.is_idempotent r.request.method || h.contains_key r.request.headers "idempotency-key")

  pub append : Classifiers h → Classifiers h → Classifiers h
  append nil ys = ys
  append (cons x xs) ys = cons x (append xs ys)

  pub push : Classifiers h → Classifier h → Classifiers h
  push nil y = cons y nil
  push (cons x xs) y = cons x (push xs y)

  -- `Classifier::or`.
  unfoldable pub or : Classifier h → Classifier h → Classifier h
  unfolding append push
  or never other = other
  or this never = this
  or (any_of all) (any_of other) = any_of (append all other)
  or (any_of all) other = any_of (push all other)
  or this (any_of other) = any_of (cons this other)
  or this other = any_of (cons this (cons other nil))

-- `Classifier::classify`; the loop over `Any` stops at the first retryable classifier.
unfoldable mutual
  pub classify : {h : Http} → Classifier h → Request h → Outcome h → Action
  classify never req res = success
  classify {h} standard req res = action (is_standard_retry (req_rep h req res))
  classify {h} (status_codes codes) req res = action (is_status_code (req_rep h req res) codes)
  classify {h} (dyn f) req res = f (req_rep h req res)
  classify (any_of cs) req res = classify_any cs req res

  pub classify_any : {h : Http} → Classifiers h → Request h → Outcome h → Action
  classify_any nil req res = success
  classify_any (cons c cs) req res = elim (classify c req res) [
    | retryable ↦ retryable
    | success ↦ classify_any cs req res
  ]

-- The error codes of HTTP/2.
abbrev pub no_error : ℕ
no_error = 0

abbrev pub refused_stream : ℕ
refused_stream = 7

abbrev pub reason_is : Option ℕ → ℕ → Bool
reason_is none code = false
reason_is (some r) code = r == code

-- The check of an `h2::Error`.
h2_retryable : H2Error → Bool
h2_retryable e =
    (e.is_go_away && e.is_remote && reason_is e.reason no_error)
    || (e.is_reset && e.is_remote && reason_is e.reason refused_stream)

-- The features that are compiled in.
pub record Features : Type 0 where
  pub http2 : Bool
  pub http3 : Bool

module _ {Url : Type 0} where
  abbrev is_end : Source Url → Bool
  is_end end = true
  is_end _ = false

  -- The checks of the third source.
  retryable_cause : Features → Source Url → Bool
  unfolding h2_retryable
  retryable_cause f (h3_connection shown s) = f.http3 && str_eq shown "timeout"
  retryable_cause f (h2 e s) = f.http2 && h2_retryable e
  retryable_cause f _ = false

  -- `is_retryable_error`: the first two sources are taken off.
  unfoldable pub is_retryable_error : Features → Error Url → Bool
  unfolding retryable_cause
  is_retryable_error f e =
      if is_end e.source || is_end (cause e.source)
      then false
      else retryable_cause f (cause (cause e.source))
