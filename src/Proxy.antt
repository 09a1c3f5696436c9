-- ===== src/Proxy.antt =====
-- src/proxy.rs: proxies, the matcher that they become, and the headers for proxies without tunnel.
-- `none` as an outer result is the panic of `Custom::call` on a URL that does not parse.
pub mod Cache
pub mod Exclusions
pub mod Plain
use mathlib.Core.Option
use reqwest.Prelude.{
  ℕ, ◌≡◌, ◌≢◌, ◌⊎◌, Bool, true, false, not, ◌&&◌, ◌||◌, String, Option, none, some, ◌>>=◌, List, [],
  ◌∷◌, is_some, str_eq, if◌then◌else◌, Result, ok, err,
}
use reqwest.Http.{Headers, Urls}

-- The builder's method that a proxy's URL is given to.
pub data Which : Type 0 where
  all http https : Which

-- `hyper_util::client::proxy::matcher` and `http::Uri`. A matcher that is built from a proxy's URL
-- intercepts with an address of that URL's scheme, and with credentials only where the URL has some.
pub record Matchers (h : Headers) (u : Urls) : Type 1 where
  pub Uri : Type 0
  pub parse_uri : String → Option Uri
  pub scheme : Uri → Option String
  pub origin : Uri → Option String
  pub UtilMatcher : Type 0
  pub UtilIntercept : Type 0
  pub build : Which → String → String → UtilMatcher
  pub from_system : UtilMatcher
  pub util_intercept : UtilMatcher → Uri → Option UtilIntercept
  pub address : UtilIntercept → Uri
  pub util_auth : UtilIntercept → Option h.HeaderValue
  pub scheme_build :
      (w : Which) (url : u.Url) (no : String) (dst : Uri) (i : UtilIntercept)
      → util_intercept (build w (u.as_str url) no) dst ≡ some i
      → scheme (address i) ≡ some (u.scheme url)
  pub auth_build :
      (w : Which) (url : u.Url) (no : String) (dst : Uri) (i : UtilIntercept) (v : h.HeaderValue)
      → util_intercept (build w (u.as_str url) no) dst ≡ some i
      → util_auth i ≡ some v
      → (u.username url ≢ "") ⊎ (is_some (u.password url) ≡ true)

abbrev pub is_http : String → Bool
is_http s = str_eq s "http" || str_eq s "https"

abbrev pub has_http_scheme : Option String → Bool
has_http_scheme none = false
has_http_scheme (some s) = is_http s

abbrev pub no_list : Option String → String
no_list none = ""
no_list (some list) = list

module _ (u : Urls) where
  abbrev pub url_auth : u.Url → String → String → u.Url
  url_auth url username password = u.set_password (u.set_username url username) (some password)

module _ (h : Headers) (u : Urls) where
  unfoldable pub cache_maybe_has_http_auth : u.Url → Option h.HeaderValue → Bool
  cache_maybe_has_http_auth url extra =
      is_http (u.scheme url)
      && (not (str_eq (u.username url) "") || is_some (u.password url) || is_some extra)

  unfoldable pub cache_maybe_has_http_custom_headers : u.Url → Option h.HeaderMap → Bool
  cache_maybe_has_http_custom_headers url extra = is_http (u.scheme url) && is_some extra

module _ (h : Headers) (u : Urls) where
  pub record Extra : Type 0 where
    pub auth : Option h.HeaderValue
    pub misc : Option h.HeaderMap

  -- `Custom`: the function, whose errors are dropped, and the proxies to leave out, which are never
  -- read.
  pub record Custom : Type 0 where
    pub func : u.Url → Option (Result u.Url String)
    pub no_proxy : Option String

  pub data Intercept : Type 0 where
    intercept_url : Which → u.Url → Intercept
    intercept_custom : Custom → Intercept

  pub record Proxy : Type 0 where
    pub extra : Extra
    pub intercept : Intercept
    pub no_proxy : Option String

module _ {h : Headers} {u : Urls} where
  abbrev pub new : Intercept h u → Proxy h u
  new i = record { extra = record { auth = none; misc = none }; intercept = i; no_proxy = none }

  -- `Proxy::basic_auth`; `encode` is `encode_basic_auth`, in base64.
  pub basic_auth : (String → String → h.HeaderValue) → Proxy h u → String → String → Proxy h u
  basic_auth encode p username password = elim p.intercept [
    | intercept_url w url ↦ record p {
      intercept = intercept_url w (url_auth u url username password);
    }
    | intercept_custom c ↦ record p {
      extra = record { auth = some (encode username password); misc = p.extra.misc };
    }
  ]

  pub custom_http_auth : Proxy h u → h.HeaderValue → Proxy h u
  custom_http_auth p v = record p { extra = record { auth = some v; misc = p.extra.misc } }

  pub with_headers : Proxy h u → h.HeaderMap → Proxy h u
  with_headers p m = record p { extra = record { auth = p.extra.auth; misc = some m } }

  unfoldable pub with_no_proxy : Proxy h u → Option String → Proxy h u
  with_no_proxy p list = record p { no_proxy = list }

module _ (h : Headers) (u : Urls) (x : Matchers h u) where
  pub data Inner : Type 0 where
    util : x.UtilMatcher → Inner
    custom : Custom h u → Inner

  pub record Matcher : Type 0 where
    pub inner : Inner
    pub extra : Extra h u
    pub maybe_has_http_auth : Bool
    pub maybe_has_http_custom_headers : Bool

  pub record Intercepted : Type 0 where
    pub inner : x.UtilIntercept
    pub extra : Extra h u

module _ {h : Headers} {u : Urls} (x : Matchers h u) where
  -- What a custom proxy does with the target that its function gives.
  unfoldable pub call_target : x.Uri → Option (Result u.Url String) → Option x.UtilIntercept
  call_target uri (some (ok target)) = x.util_intercept (x.build all (u.as_str target) "") uri
  call_target uri _ = none

  -- `Custom::call`; the address without path is `x.origin`, absent where scheme or host is.
  pub call : Custom h u → x.Uri → Option (Option x.UtilIntercept)
  unfolding call_target
  call c uri = elim (x.origin uri) [
    | none ↦ some none
    | some text ↦ Option.map (λ url. call_target uri (c.func url)) (u.parse text)
  ]

module _ {h : Headers} {u : Urls} {x : Matchers h u} where
  unfoldable pub into_matcher : Proxy h u → Matcher h u x
  into_matcher p = elim p.intercept [
    | intercept_url w url ↦ record {
      inner = util (x.build w (u.as_str url) (no_list p.no_proxy));
      extra = p.extra;
      maybe_has_http_auth = cache_maybe_has_http_auth h u url p.extra.auth;
      maybe_has_http_custom_headers = cache_maybe_has_http_custom_headers h u url p.extra.misc;
    }
    | intercept_custom c ↦ record {
      inner = custom (record c { no_proxy = p.no_proxy });
      extra = p.extra;
      maybe_has_http_auth = true;
      maybe_has_http_custom_headers = true;
    }
  ]

  abbrev pub system : Matcher h u x
  system = record {
    inner = util x.from_system;
    extra = record { auth = none; misc = none };
    maybe_has_http_auth = true;
    maybe_has_http_custom_headers = true;
  }

  unfoldable pub util_or_custom : Inner h u x → x.Uri → Option (Option x.UtilIntercept)
  unfolding call
  util_or_custom (util m) dst = some (x.util_intercept m dst)
  util_or_custom (custom c) dst = call x c dst

  unfoldable pub intercept : Matcher h u x → x.Uri → Option (Option (Intercepted h u x))
  unfolding util_or_custom
  intercept m dst =
      Option.map (Option.map (λ i. record { inner = i; extra = m.extra }))
        (util_or_custom m.inner dst)

  abbrev pub intercepted_auth : Intercepted h u x → Option h.HeaderValue
  intercepted_auth i = elim i.extra.auth [ some v ↦ some v | none ↦ x.util_auth i.inner ]

  -- `http_non_tunnel_basic_auth` and `http_non_tunnel_custom_headers`, behind `intercept`.
  abbrev pub non_tunnel {ℓ} :
      {A : Type ℓ} → (Intercepted h u x → Option A) → Option (Intercepted h u x) → Option A
  non_tunnel f none = none
  non_tunnel f (some i) = if has_http_scheme (x.scheme (x.address i.inner)) then f i else none

  pub http_non_tunnel_basic_auth : Matcher h u x → x.Uri → Option (Option h.HeaderValue)
  unfolding intercept
  http_non_tunnel_basic_auth m dst = Option.map (non_tunnel intercepted_auth) (intercept m dst)

  pub http_non_tunnel_custom_headers : Matcher h u x → x.Uri → Option (Option h.HeaderMap)
  unfolding intercept
  http_non_tunnel_custom_headers m dst =
      Option.map (non_tunnel (λ i. i.extra.misc)) (intercept m dst)
