-- ===== src/Cookie.antt =====
-- src/cookie.rs: cookies, the jar, and the service that puts them into requests.
-- The crates `cookie` and `cookie_store` are a parameter. A text is a list of bytes.
pub mod Service
pub mod Jars
mod Tests
use mathlib.Core.Option
use reqwest.Prelude.{
  get_or, ℕ, ◌≡◌, Bool, true, false, String, Option, none, some, ◌>>=◌, List, [], ◌∷◌, ◌++◌, codes,
  Result, ok, err, is_some, if◌then◌else◌,
}
use reqwest.Http.{Headers, HeaderValues, Urls}
use reqwest.Client.{Poll, pending, ready}
use reqwest.Util.{add_cookie_header}

pub data SameSite : Type 0 where
  strict lax no_restriction : SameSite

pub data Expiration : Type 0 where
  date_time : ℕ → Expiration
  session : Expiration

-- A cookie of the crate `cookie`, and the store of `cookie_store`. A maximal age below zero has no
-- counterpart in std's durations.
pub record Cookies (u : Urls) : Type 1 where
  pub Cookie : Type 0
  pub parse : List ℕ → Option Cookie
  pub http_only : Cookie → Option Bool
  pub secure : Cookie → Option Bool
  pub same_site : Cookie → Option SameSite
  pub expires : Cookie → Option Expiration
  pub Store : Type 0
  pub store_response_cookies : Store → List Cookie → u.Url → Store
  pub get_request_values : Store → u.Url → List (List ℕ × List ℕ)

abbrev pub is_lax : Option SameSite → Bool
is_lax (some SameSite.lax) = true
is_lax _ = false

abbrev pub is_strict : Option SameSite → Bool
is_strict (some SameSite.strict) = true
is_strict _ = false

module _ {u : Urls} (c : Cookies u) where
  abbrev pub http_only : c.Cookie → Bool
  http_only x = get_or false (c.http_only x)

  abbrev pub secure : c.Cookie → Bool
  secure x = get_or false (c.secure x)

  abbrev pub same_site_lax : c.Cookie → Bool
  same_site_lax x = is_lax (c.same_site x)

  abbrev pub same_site_strict : c.Cookie → Bool
  same_site_strict x = is_strict (c.same_site x)

  -- The instant at which a cookie expires.
  abbrev pub expires : c.Cookie → Option ℕ
  expires x = elim (c.expires x) [ some (date_time at) ↦ some at | _ ↦ none ]

  -- `filter_map` with the parser; text that is no cookie is left out.
  unfoldable pub parsed : List (List ℕ) → List c.Cookie
  parsed [] = []
  parsed (text ∷ texts) =
      let rest = parsed texts in elim (c.parse text) [ none ↦ rest | some cookie ↦ cookie ∷ rest ]

  -- `Jar`: its store.
  unfoldable pub add_cookie_str : c.Store → List ℕ → u.Url → c.Store
  unfolding parsed
  add_cookie_str store cookie url = c.store_response_cookies store (parsed (cookie ∷ [])) url

  unfoldable pub set_cookies : c.Store → List (List ℕ) → u.Url → c.Store
  unfolding parsed
  set_cookies store values url = c.store_response_cookies store (parsed values) url

  -- `format!("{name}={value}")`, and `join("; ")`.
  abbrev pub pair_text : List ℕ × List ℕ → List ℕ
  pair_text (name, value) = name ++ b'=' ∷ value

  unfoldable pub join : List (List ℕ × List ℕ) → List ℕ
  join [] = []
  join (p ∷ []) = pair_text p
  join (p ∷ q ∷ ps) = pair_text p ++ (codes "; " ++ join (q ∷ ps))

  -- `Jar::cookies`.
  unfoldable pub cookies : {h : Headers} → HeaderValues h → c.Store → u.Url → Option h.HeaderValue
  unfolding join
  cookies v store url = elim (join (c.get_request_values store url)) [
    | [] ↦ none
    | b ∷ bs ↦ v.from_bytes (b ∷ bs)
  ]

-- A store as the service sees it: `cookies` and `set_cookies` of the trait `CookieStore`.
pub record CookieStore (h : Headers) (u : Urls) : Type 1 where
  pub State : Type 0
  pub cookies : State → u.Url → Option h.HeaderValue
  pub set_cookies : State → List h.HeaderValue → u.Url → State

module _ {h : Headers} {u : Urls} where
  -- `CookieService::call`: the URL, and the headers that the inner service is called with; `none` is
  -- the panic of `expect`.
  unfoldable pub call :
      (s : CookieStore h u) → Option s.State → String → h.HeaderMap → Option (u.Url × h.HeaderMap)
  call s store uri headers = u.parse uri >>= λ url. elim store [
    | none ↦ some (url, headers)
    | some state ↦
        if is_some (h.get headers "cookie")
        then some (url, headers)
        else some (url, add_cookie_header h (s.cookies state) headers url)
  ]

  -- `ResponseFuture::poll`: the store after it, and the answer. Of a response its headers matter.
  unfoldable pub poll :
      {E : Type 0} (s : CookieStore h u)
      → Option s.State
      → u.Url
      → Poll (Result h.HeaderMap E)
      → Option s.State × Poll (Result h.HeaderMap E)
  poll s store url pending = (store, pending)
  poll s store url (ready (err e)) = (store, ready (err e))
  poll s none url (ready (ok res)) = (none, ready (ok res))
  poll s (some state) url (ready (ok res)) = elim (h.get_all res "set-cookie") [
    | [] ↦ (some state, ready (ok res))
    | x ∷ xs ↦ (some (s.set_cookies state (x ∷ xs) url), ready (ok res))
  ]
