-- ===== src/Proxy/Plain.antt =====
-- An instance of the matchers of `hyper_util`, which shows that their laws can hold, and a proxy.
use reqwest.Prelude.{
  ◌≡◌, ◌≢◌, inl, inr, ap, sym, true, not, ◌&&◌, String, Option, none, some, codes, str_eq, eq_iff,
  if◌then◌else◌, Bool-cases, arith,
}
use reqwest.Http.{Headers, Urls}
use reqwest.Http.Plain.{plain_headers, plain_urls, PlainUrl, site}
use reqwest.Proxy.{Which, Matchers, Matcher, Intercept, intercept_url, into_matcher}

-- Only an `http` URL with a user name prints as the proxy's address.
abbrev pub proxy_text : PlainUrl → String
proxy_text url = if str_eq url.scheme "http" && not (str_eq url.username "") then url.host else ""

abbrev pub proxy_urls : Urls
proxy_urls = record plain_urls { as_str = proxy_text }

pub proxy_text-http :
    (url : PlainUrl)
    → str_eq (proxy_text url) "proxy.test" ≡ true
    → (url.scheme ≡ "http") × (url.username ≢ "")
proxy_text-http url e =
    elim (Bool-cases (str_eq url.scheme "http" && not (str_eq url.username ""))) [
      | inl good ↦ ground (arith, eq_iff url.scheme "http", eq_iff url.username "")
      | inr bad ↦ cc (rw bad at e)
    ]

abbrev pub found : String → Option String
found text = if str_eq text "proxy.test" then some text else none

pub found_text : (text i : String) → found text ≡ some i → str_eq text "proxy.test" ≡ true
found_text text i e = ground arith

abbrev pub matchers_over : (h : Headers) (value : String → h.HeaderValue) → Matchers h proxy_urls
matchers_over h value = record {
  Uri = String;
  parse_uri = some;
  scheme = λ uri. some "http";
  origin = some;
  UtilMatcher = String;
  UtilIntercept = String;
  build = λ w text list. text;
  from_system = "";
  util_intercept = λ m dst. found m;
  address = λ i. i;
  util_auth = λ i. some (value i);
  scheme_build = λ w url list dst i e.
      ap some (sym ((proxy_text-http url (found_text (proxy_text url) i e)).0));
  auth_build =
      λ w url list dst i v e e'. inl ((proxy_text-http url (found_text (proxy_text url) i e)).1);
}

abbrev pub plain_matchers : Matchers plain_headers proxy_urls
plain_matchers = matchers_over plain_headers codes

abbrev pub socks : Intercept plain_headers proxy_urls
socks = intercept_url Which.all (site "socks5" "proxy.test")

abbrev pub matcher : Matcher plain_headers proxy_urls plain_matchers
matcher =
    into_matcher
      (record { extra = record { auth = none; misc = none }; intercept = socks; no_proxy = none })
