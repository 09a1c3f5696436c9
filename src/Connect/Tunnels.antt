-- ===== src/Connect/Tunnels.antt =====
-- src/connect.rs: what is sent through which proxy, and with which headers a tunnel is asked for.
use reqwest.Prelude.{
  ◌⊎◌, ◌≡◌, refl, ◌∙◌, Bool, true, false, ◌||◌, String, Option, none, some, List, [], ◌∷◌, str_eq,
}
use reqwest.Http.{Headers, HeaderValues, Urls}
use reqwest.Proxy.{Matchers, Intercepted, intercept, intercepted_auth}
use reqwest.Client.{first}
use reqwest.Dns.{UriParts}
use reqwest.Connect.{
  native_tls, rustls_tls, TunnelLib, ConnectorService, Plan, DnsResolve, directly,
  over_local_transport, over_socks, tunneled, failed, scheme_is, tunnel_to,
}

module _ {h : Headers} {Uri : Type 0} (v : HeaderValues h) (t : TunnelLib h Uri) where
  -- Where both the client and the proxy's configuration set headers for the tunnel, the two TLS
  -- libraries disagree on which wins: with native TLS the proxy's `User-Agent`, with rustls that of
  -- the client.
  pub tunnel_to_user_agent :
      (proxy_dst : Uri) (auth : Option h.HeaderValue) (ua : h.HeaderValue) (custom : h.HeaderMap)
      (first_value : h.HeaderValue) (more : List h.HeaderValue)
      → h.get_all custom "user-agent" ≡ first_value ∷ more
      → (h.get_all
            (t.headers (tunnel_to v t native_tls proxy_dst auth (some ua) (some custom)))
            "user-agent"
          ≡ first_value ∷ more)
        × (h.get_all
              (t.headers (tunnel_to v t rustls_tls proxy_dst auth (some ua) (some custom)))
              "user-agent"
            ≡ ua ∷ [])
  unfolding tunnel_to
  tunnel_to_user_agent proxy_dst auth ua custom first_value more e = (
    t.get_all-with_headers _ custom "user-agent" ∙ rw e refl,
    t.get_all-with_headers _ (h.insert v.empty "user-agent" ua) "user-agent"
        ∙ rw (h.get_all-insert v.empty "user-agent" ua "user-agent") refl,
  )

-- Why TLS finds no name to check: there is none, or it is not a server's name.
abbrev pub NoName : {Uri : Type 0} → UriParts Uri → (String → Bool) → Uri → Type 0
NoName p is_server_name dst =
    (p.host dst ≡ none)
    ⊎ ((host : String) × (p.host dst ≡ some host) × (is_server_name host ≡ false))

-- Whether a proxy's scheme is one of SOCKS, whose addresses are found locally or by the proxy.
abbrev pub IsSocks : String → DnsResolve → Type 0
IsSocks s DnsResolve.local = (str_eq s "socks4" || str_eq s "socks5") ≡ true
IsSocks s DnsResolve.proxy = (str_eq s "socks4a" || str_eq s "socks5h") ≡ true

module _ {h : Headers} {u : Urls} {x : Matchers h u} where
  -- There is no local transport, and a proxy is the first that takes the destination.
  abbrev pub Intercepts : ConnectorService h u x → x.Uri → Intercepted h u x → Type 0
  Intercepts c dst i =
      (c.local_transport ≡ false) × (first (λ m. intercept m dst) c.proxies ≡ some (some i))

  -- The address of a proxy has a scheme that satisfies a predicate.
  abbrev pub HasScheme : Intercepted h u x → (String → Type 0) → Type 0
  HasScheme i Is = (s : String) × (x.scheme (x.address i.inner) ≡ some s) × Is s

-- A scheme of a proxy other than those of SOCKS.
abbrev pub IsHttpProxy : String → Type 0
IsHttpProxy s =
    ((str_eq s "socks4" || str_eq s "socks5") ≡ false)
    × ((str_eq s "socks4a" || str_eq s "socks5h") ≡ false)

module _ {h : Headers} {u : Urls} {x : Matchers h u} (v : HeaderValues h) (p : UriParts x.Uri)
    (t : TunnelLib h x.Uri) (is_server_name : String → Bool) where
  -- How a client with a TLS library may reach a destination, `https` or not.
  pub data Routes (c : ConnectorService h u x) (dst : x.Uri) (https : Bool)
      : Plan h u x t.Tunnel → Type 0 where
    by_local_transport : c.local_transport ≡ true → Routes c dst https over_local_transport
    past_proxies :
        c.local_transport ≡ false
        → first (λ m. intercept m dst) c.proxies ≡ some none
        → Routes c dst https (directly dst false)
    through_tunnel :
        (i : Intercepted h u x) (host : String)
        → Intercepts c dst i
        → HasScheme i IsHttpProxy
        → https ≡ true
        → p.host dst ≡ some host
        → Routes c dst https (
            tunneled
              (tunnel_to v t c.inner
                (x.address i.inner)
                (intercepted_auth i)
                c.user_agent
                i.extra.misc)
              host)
    through_socks :
        (dns : DnsResolve) (i : Intercepted h u x)
        → Intercepts c dst i
        → HasScheme i (λ s. IsSocks s dns)
        → Routes c dst https (over_socks dns i https)
    in_the_clear :
        (i : Intercepted h u x)
        → Intercepts c dst i
        → HasScheme i IsHttpProxy
        → https ≡ false
        → Routes c dst https (directly (x.address i.inner) true)
    no_scheme :
        (i : Intercepted h u x) (message : String)
        → Intercepts c dst i
        → x.scheme (x.address i.inner) ≡ none
        → Routes c dst https (failed message)
    no_name :
        (i : Intercepted h u x) (message : String)
        → Intercepts c dst i
        → https ≡ true
        → NoName p is_server_name dst
        → Routes c dst https (failed message)

  module _ (c : ConnectorService h u x) (dst : x.Uri) where
    IsRouted : Option (Plan h u x t.Tunnel) → Type 0
    IsRouted none = Unit
    IsRouted (some plan) = Routes c dst (scheme_is "https" (x.scheme dst)) plan
