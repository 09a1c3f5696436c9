-- ===== src/Connect/Tests.antt =====
-- The theorems on the connector at concrete values.
use reqwest.Prelude.{
  ℕ, ◌≡◌, refl, true, false, String, none, some, List, [], ◌∷◌, inr, Result, ok, err,
}
use reqwest.Http.Marked.{Marked, plain, marked_headers, marked_values}
use reqwest.Util.Merge.{replace_headers_lem}
use reqwest.Error.{Source, text}
use reqwest.Proxy.{Matchers, Matcher, Intercepted, util}
use reqwest.Proxy.Plain.{matchers_over, proxy_urls}
use reqwest.Dns.{UriParts, Resolve, SocketAddr}
use reqwest.Connect.{
  native_tls, rustls_tls, DnsResolve, TunnelLib, ConnectorService, over_socks, tunnel_to,
  connect_via_proxy, connect_socks, socks_target,
}
use reqwest.Connect.Tunnels.{tunnel_to_user_agent}
use reqwest.Connect.Socks.{socks_target_remote}

abbrev matchers : Matchers marked_headers proxy_urls
matchers = matchers_over marked_headers plain

-- A tunnel is the headers that it asks with.
abbrev tunnels : TunnelLib marked_headers String
tunnels = record {
  Tunnel = List (String × Marked);
  new = λ uri. [];
  with_auth = λ t auth. ("proxy-authorization", auth) ∷ t;
  with_headers = λ t m. (replace_headers_lem marked_values t m).0;
  headers = λ t. t;
  get_all-with_headers =
      λ t m k. let (out, runs, holds) = replace_headers_lem marked_values t m in holds k;
}

abbrev custom : List (String × Marked)
custom = ("user-agent", plain "custom") ∷ []

tunnel_to_user_agent_example :
    (marked_headers.get_all
        (tunnels.headers (
          tunnel_to marked_values tunnels native_tls "proxy.test" none
            (some (plain "client"))
            (some custom)))
        "user-agent"
      ≡ plain "custom" ∷ [])
    × (marked_headers.get_all
          (tunnels.headers (
            tunnel_to marked_values tunnels rustls_tls "proxy.test" none
              (some (plain "client"))
              (some custom)))
          "user-agent"
        ≡ plain "client" ∷ [])
tunnel_to_user_agent_example =
    tunnel_to_user_agent marked_values tunnels "proxy.test" none (plain "client") custom
      (plain "custom") [] refl

abbrev parts : UriParts String
parts = record { scheme_str = some; host = some; port = λ uri. none }

abbrev proxied : Matcher marked_headers proxy_urls matchers
proxied = record {
  inner = util "proxy.test";
  extra = record { auth = none; misc = none };
  maybe_has_http_auth = true;
  maybe_has_http_custom_headers = true;
}

abbrev connector : ConnectorService marked_headers proxy_urls matchers
connector = record {
  inner = native_tls;
  proxies = proxied ∷ [];
  user_agent = none;
  local_transport = false;
}

-- A URI is its scheme, and no proxy is found by URL.
abbrev silent : Matchers marked_headers proxy_urls
silent = record {
  Uri = String;
  parse_uri = some;
  scheme = some;
  origin = some;
  UtilMatcher = Unit {0};
  UtilIntercept = String;
  build = λ w text list. tt;
  from_system = tt;
  util_intercept = λ m dst. none;
  address = λ i. i;
  util_auth = λ i. none;
  scheme_build = λ w url list dst i e. cc e;
  auth_build = λ w url list dst i v e e'. cc e;
}

abbrev behind_socks : ConnectorService marked_headers proxy_urls silent
behind_socks = record {
  inner = native_tls;
  proxies = [];
  user_agent = none;
  local_transport = false;
}

abbrev socks5h : Intercepted marked_headers proxy_urls silent
socks5h = record { inner = "socks5h"; extra = record { auth = none; misc = none } }

abbrev resolver : Result (List SocketAddr) (Source ℕ) → Resolve ℕ
resolver answer = record { Name = String; from_str = some; resolve = λ name. answer }

remote :
    connect_via_proxy marked_values parts tunnels (λ name. true) behind_socks "http" socks5h
    ≡ over_socks DnsResolve.proxy socks5h false
unfolding connect_via_proxy connect_socks
remote = refl

socks_target_remote_example :
    socks_target parts (resolver (ok [])) DnsResolve.proxy "http"
    ≡ socks_target parts (resolver (err (text "no such host"))) DnsResolve.proxy "http"
socks_target_remote_example =
    socks_target_remote marked_values parts tunnels (λ name. true) behind_socks "http" socks5h
      socks5h DnsResolve.proxy false (resolver (ok [])) (resolver (err (text "no such host")))
      (inr refl) remote
