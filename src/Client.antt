-- ===== src/Client.antt =====
-- src/async_impl/client.rs: how a request becomes one of the service stack, and how it is polled.
-- Instants are nanoseconds; a `Sleep` is the instant at which it is over. `none` as an outer result
-- is the panic of a custom proxy.
pub mod Defaults
pub mod Proxies
pub mod Sending
pub mod Polling
pub mod Calling
mod Tests
use mathlib.Core.Option
use reqwest.Prelude.{
  ℕ, ◌+◌, Bool, true, false, not, ◌&&◌, ◌||◌, String, Option, none, some, ◌>>=◌, List, [], ◌∷◌, any,
  leb, str_eq, if◌then◌else◌, Result, ok, err,
}
use reqwest.Http.{Headers, Urls}
use reqwest.Config.{RequestConfig, fetch}
use reqwest.Request.{Request, Version, body_of, is_http3}
use reqwest.Body.{Body, empty}
use reqwest.Error.{
  Error, Source, Kind, timed_out, boxed, url_invalid_uri, request_error, decode_error,
  url_bad_scheme, with_url, if_no_url, text,
}
use reqwest.Proxy.{Matchers, Matcher, http_non_tunnel_basic_auth, http_non_tunnel_custom_headers}

-- `ClientRef`; of the HTTP/3 client only whether there is one.
pub record ClientRef (h : Headers) (u : Urls) (x : Matchers h u) : Type 0 where
  pub headers : h.HeaderMap
  pub total_timeout : RequestConfig
  pub read_timeout : Option ℕ
  pub proxies : List (Matcher h u x)
  pub proxies_maybe_http_auth : Bool
  pub proxies_maybe_http_custom_headers : Bool
  pub https_only : Bool
  pub h3_client : Bool

-- What the service stack is called with, and what `PendingRequest` keeps beside it: the timers that
-- start, and the URL that errors and the response name.
pub record Sent (h : Headers) (u : Urls) (x : Matchers h u) : Type 0 where
  pub by_h3 : Bool
  pub method : String
  pub version : Version
  pub url : u.Url
  pub uri : x.Uri
  pub headers : h.HeaderMap
  pub body : Body
  pub deadline : Option ℕ
  pub total_timeout : Option ℕ
  pub read_timeout : Option ℕ

-- `Instant::now()` and the last instant.
pub record Clock : Type 0 where
  pub now : ℕ
  pub last : ℕ

abbrev pub checked_add : Clock → ℕ → Option ℕ
checked_add clock d = if leb (clock.now + d) clock.last then some (clock.now + d) else none

module _ (h : Headers) where
  -- The loop over the client's headers: a name that is there is left alone.
  pub insert_defaults : h.HeaderMap → List (String × h.HeaderValue) → h.HeaderMap
  insert_defaults m [] = m
  insert_defaults m ((k, v) ∷ rest) =
      insert_defaults (if h.contains_key m k then m else h.insert m k v) rest

  pub insert_all : h.HeaderMap → List (String × h.HeaderValue) → h.HeaderMap
  insert_all m [] = m
  insert_all m ((k, v) ∷ rest) = insert_all (h.insert m k v) rest

-- The first answer of a list, with the loop's `break`.
unfoldable pub first {ℓ κ} :
    {M : Type ℓ} {A : Type κ} → (M → Option (Option A)) → List M → Option (Option A)
first f [] = some none
first f (m ∷ ms) =
    let rest = first f ms in f m >>= λ answer. elim answer [ some v ↦ some (some v) | none ↦ rest ]

abbrev pub is_plain_http : Option String → Bool
is_plain_http none = false
is_plain_http (some s) = str_eq s "http"

abbrev pub with_auth : (h : Headers) → h.HeaderMap → Option h.HeaderValue → h.HeaderMap
with_auth h m none = m
with_auth h m (some v) = h.insert m "proxy-authorization" v

abbrev pub with_custom : (h : Headers) → h.HeaderMap → Option h.HeaderMap → h.HeaderMap
with_custom h m none = m
with_custom h m (some more) = insert_all h m (h.iter more)

module _ {h : Headers} {u : Urls} {x : Matchers h u} where
  unfoldable pub proxy_auth : ClientRef h u x → x.Uri → h.HeaderMap → Option h.HeaderMap
  proxy_auth c dst m =
      if not c.proxies_maybe_http_auth
      then some m
      else if not (is_plain_http (x.scheme dst))
      then some m
      else if h.contains_key m "proxy-authorization"
      then some m
      else Option.map (with_auth h m) (first (λ p. http_non_tunnel_basic_auth p dst) c.proxies)

  unfoldable pub proxy_custom_headers : ClientRef h u x → x.Uri → h.HeaderMap → Option h.HeaderMap
  proxy_custom_headers c dst m =
      if not c.proxies_maybe_http_custom_headers
      then some m
      else if not (is_plain_http (x.scheme dst))
      then some m
      else Option.map (with_custom h m)
          (first (λ p. http_non_tunnel_custom_headers p dst) c.proxies)

  -- The part behind the checks of the scheme.
  pub send : Clock → ClientRef h u x → Request h u → x.Uri → Option (Sent h u x)
  unfolding proxy_auth proxy_custom_headers
  send clock c req uri = do
    with_auth ← proxy_auth c uri (insert_defaults h req.headers (h.iter c.headers))
    headers ← proxy_custom_headers c uri with_auth
    let total = fetch c.total_timeout req.extensions
    some (record {
      by_h3 = is_http3 req.version && c.h3_client;
      method = req.method;
      version = req.version;
      url = req.url;
      uri = uri;
      headers = headers;
      body = body_of req.body;
      deadline = total >>= checked_add clock;
      total_timeout = Option.map (λ d. clock.now + d) total;
      read_timeout = Option.map (λ d. clock.now + d) c.read_timeout;
    })

  -- `execute_without_middleware`.
  pub execute_without_middleware :
      Clock → ClientRef h u x → Request h u → Option (Result (Sent h u x) (Error u.Url))
  unfolding send
  execute_without_middleware clock c req =
      if not (str_eq (u.scheme req.url) "http") && not (str_eq (u.scheme req.url) "https")
      then some (err (url_bad_scheme req.url))
      else if c.https_only && not (str_eq (u.scheme req.url) "https")
      then some (err (url_bad_scheme req.url))
      else elim (x.parse_uri (u.as_str req.url)) [
        | none ↦ some (err (url_invalid_uri req.url))
        | some uri ↦ Option.map ok (send clock c req uri)
      ]

pub data Poll {ℓ} (A : Type ℓ) : Type ℓ where
  pending : Poll A
  ready : A → Poll A

-- A response with the URL that redirects left in its extensions, if there is one.
pub record Response : Type 0 where
  pub status : ℕ
  pub request_uri : Option String

module _ (u : Urls) where
  -- `PendingRequest`; the service's future is what its poll finds.
  pub record PendingRequest : Type 0 where
    pub url : u.Url
    pub by_h3 : Bool
    pub total_timeout : Option ℕ
    pub read_timeout_fut : Option ℕ

  abbrev pub is_over : ℕ → Option ℕ → Bool
  is_over now none = false
  is_over now (some at) = leb at now

  pub timeout_error : u.Url → Error u.Url
  timeout_error url = with_url (request_error timed_out) url

  pub failed : PendingRequest → Error u.Url → Error u.Url
  failed p e = if p.by_h3 then with_url (request_error (boxed e)) p.url else if_no_url e p.url

  -- The response with the URL that it came from.
  pub answered : PendingRequest → Response → Result (Response × u.Url) (Error u.Url)
  answered p res = elim res.request_uri [
    | none ↦ ok (res, p.url)
    | some uri ↦ elim (u.parse uri) [
      | some url ↦ ok (res, url)
      | none ↦ err (decode_error (text "invalid URL"))
    ]
  ]

  -- `PendingRequest::poll`.
  pub poll :
      ℕ
      → PendingRequest
      → Poll (Result Response (Error u.Url))
      → Poll (Result (Response × u.Url) (Error u.Url))
  unfolding timeout_error failed answered
  poll now p in_flight =
      if is_over now p.total_timeout
      then ready (err (timeout_error p.url))
      else if is_over now p.read_timeout_fut
      then ready (err (timeout_error p.url))
      else elim in_flight [
        | pending ↦ pending
        | ready (err e) ↦ ready (err (failed p e))
        | ready (ok res) ↦ ready (answered p res)
      ]
