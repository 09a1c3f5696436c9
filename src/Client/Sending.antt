-- ===== src/Client/Sending.antt =====
-- src/async_impl/client.rs, `execute_without_middleware`: what is sent, and what is refused.
use mathlib.Core.Option
use reqwest.Prelude.{◌≡◌, Bool, not, ◌&&◌, ◌||◌, String, some, ◌>>=◌, str_eq}
use reqwest.Http.{Headers, Urls}
use reqwest.Proxy.{Matchers}
use reqwest.Config.{fetch}
use reqwest.Request.{Request, is_http3, body_of}
use reqwest.Client.{ClientRef, Sent, Clock, checked_add}

-- Whether a client may send to a scheme.
abbrev pub may_send : Bool → String → Bool
may_send https_only scheme = str_eq scheme "https" || (str_eq scheme "http" && not https_only)

module _ {h : Headers} {u : Urls} {x : Matchers h u} where
  -- The request line, the stack, the body and the deadline that are sent.
  pub record SentFor (clock : Clock) (c : ClientRef h u x) (req : Request h u) (s : Sent h u x)
      : Type 0 where
    pub destination : x.parse_uri (u.as_str req.url) ≡ some s.uri
    pub named : s.url ≡ req.url
    pub method : s.method ≡ req.method
    pub version : s.version ≡ req.version
    pub stack : s.by_h3 ≡ (is_http3 req.version && c.h3_client)
    pub body : s.body ≡ body_of req.body
    pub deadline : s.deadline ≡ (fetch c.total_timeout req.extensions >>= checked_add clock)
