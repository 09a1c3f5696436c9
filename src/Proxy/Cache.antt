-- ===== src/Proxy/Cache.antt =====
-- src/proxy.rs: what the flags of a matcher promise about the headers that it may give.
use reqwest.Prelude.{
  ◌≡◌, inl, inr, refl, ap, false, String, Option, none, some, eq_iff, Option-cases, arith,
}
use reqwest.Http.{Headers, Urls}
use reqwest.Proxy.{
  Which, Matchers, Extra, Intercept, intercept_url, intercept_custom, Matcher, no_list,
  cache_maybe_has_http_auth, cache_maybe_has_http_custom_headers, into_matcher, system,
  util_or_custom, intercept, intercepted_auth, non_tunnel, http_non_tunnel_basic_auth,
  http_non_tunnel_custom_headers,
}

module _ {h : Headers} {u : Urls} (x : Matchers h u) where
  -- A URL without the flag gives no credentials on an address of its scheme.
  no_credentials :
      (w : Which) (url : u.Url) (list : String) (dst : x.Uri) (e : Extra h u) (i : x.UtilIntercept)
      → x.util_intercept (x.build w (u.as_str url) list) dst ≡ some i
      → cache_maybe_has_http_auth h u url e.auth ≡ false
      → non_tunnel {x = x} intercepted_auth (some (record { inner = i; extra = e })) ≡ none
  unfolding cache_maybe_has_http_auth
  no_credentials w url list dst e i found off =
      let same = x.scheme_build w url list dst i found in
      elim (Option-cases (x.util_auth i)) [
        | inl silent ↦ rw same (ground (arith, silent))
        | inr (v, has_auth) ↦
            let some_auth = x.auth_build w url list dst i v found has_auth in
            rw same (ground (arith, some_auth, eq_iff (u.username url) ""))
      ]

  no_custom_headers :
      (w : Which) (url : u.Url) (list : String) (dst : x.Uri) (e : Extra h u) (i : x.UtilIntercept)
      → x.util_intercept (x.build w (u.as_str url) list) dst ≡ some i
      → cache_maybe_has_http_custom_headers h u url e.misc ≡ false
      → non_tunnel {x = x} (λ t. t.extra.misc) (some (record { inner = i; extra = e })) ≡ none
  unfolding cache_maybe_has_http_custom_headers
  no_custom_headers w url list dst e i found off =
      let same = x.scheme_build w url list dst i found in rw same (ground arith)

module _ {h : Headers} {u : Urls} {x : Matchers h u} where
  -- The matchers that the library makes.
  pub data Built : Matcher h u x → Type 0 where
    from_proxy :
        (e : Extra h u) (i : Intercept h u) (list : Option String)
        → Built (into_matcher (record { extra = e; intercept = i; no_proxy = list }))
    from_env : Built system

  -- A matcher without the flag for credentials never gives any, and never panics.
  pub no_auth :
      (m : Matcher h u x) (dst : x.Uri)
      → Built m
      → m.maybe_has_http_auth ≡ false
      → http_non_tunnel_basic_auth m dst ≡ some none
  unfolding http_non_tunnel_basic_auth into_matcher intercept util_or_custom
  no_auth m dst (from_proxy e (intercept_url w url) list) off =
      elim (Option-cases (x.util_intercept (x.build w (u.as_str url) (no_list list)) dst)) [
        | inl missed ↦ rw missed refl
        | inr (i, found) ↦
            rw found (ap some (no_credentials x w url (no_list list) dst e i found off))
      ]
  no_auth m dst (from_proxy e (intercept_custom c) list) off = cc
  no_auth m dst from_env off = cc

  -- The same for the custom headers.
  pub no_headers :
      (m : Matcher h u x) (dst : x.Uri)
      → Built m
      → m.maybe_has_http_custom_headers ≡ false
      → http_non_tunnel_custom_headers m dst ≡ some none
  unfolding http_non_tunnel_custom_headers into_matcher intercept util_or_custom
  no_headers m dst (from_proxy e (intercept_url w url) list) off =
      elim (Option-cases (x.util_intercept (x.build w (u.as_str url) (no_list list)) dst)) [
        | inl missed ↦ rw missed refl
        | inr (i, found) ↦
            rw found (ap some (no_custom_headers x w url (no_list list) dst e i found off))
      ]
  no_headers m dst (from_proxy e (intercept_custom c) list) off = cc
  no_headers m dst from_env off = cc
