-- ===== src/Proxy/Exclusions.antt =====
-- src/proxy.rs, `Proxy::no_proxy`: what becomes of the exclusion list.
use reqwest.Prelude.{◌≡◌, refl, String, Option}
use reqwest.Http.{Headers, Urls}
use reqwest.Proxy.{
  Matchers, Custom, intercept_custom, Proxy, with_no_proxy, into_matcher, intercept, util_or_custom,
  call,
}

module _ {h : Headers} {u : Urls} {x : Matchers h u} where
  -- The exclusion list of a proxy that is a function has no effect: whatever the list, the proxy
  -- intercepts the same requests with the same targets.
  pub intercept-with_no_proxy :
      (p : Proxy h u) (c : Custom h u) (list : Option String) (dst : x.Uri)
      → p.intercept ≡ intercept_custom c
      → intercept {x = x} (into_matcher (with_no_proxy p list)) dst ≡ intercept (into_matcher p) dst
  unfolding intercept into_matcher with_no_proxy util_or_custom call
  intercept-with_no_proxy p c list dst e = rw e refl
