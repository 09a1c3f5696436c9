-- ===== src/Connect.antt =====
-- src/connect.rs: how the connector reaches a destination, and what it tells a proxy.
-- What is decided before a socket is opened is a plan; the streams themselves are not modelled.
-- `none` as an outer result is the panic of a custom proxy.
pub mod Tunnels
pub mod Socks
mod Tests
use mathlib.Core.Option
use Prim.Native.String.{◌++◌ as append}
use reqwest.Prelude.{
  ℕ, ◌≡◌, Bool, true, false, not, ◌&&◌, ◌||◌, String, Option, none, some, ◌>>=◌, List, [], ◌∷◌,
  get_or, str_eq, if◌then◌else◌, Result, ok, err,
}
use reqwest.Http.{Headers, HeaderValues, Urls}
use reqwest.Error.{Source}
use reqwest.Proxy.{Matchers, Matcher, Intercepted, intercept, intercepted_auth}
use reqwest.Client.{first}
use reqwest.Util.Merge.{or_all}
use reqwest.Dns.{UriParts, SocketAddr, Resolve, http_resolve}

-- `Inner`: the TLS library.
pub data Backend : Type 0 where
  plain_http native_tls rustls_tls : Backend

pub data DnsResolve : Type 0 where
  local proxy : DnsResolve

-- `Tunnel` of `hyper_util`: headers that are given later replace those of the same name.
pub record TunnelLib (h : Headers) (Uri : Type 0) : Type 1 where
  pub Tunnel : Type 0
  pub new : Uri → Tunnel
  pub with_auth : Tunnel → h.HeaderValue → Tunnel
  pub with_headers : Tunnel → h.HeaderMap → Tunnel
  pub headers : Tunnel → h.HeaderMap
  pub get_all-with_headers :
      (t : Tunnel) (m : h.HeaderMap) (k : String)
      → h.get_all (headers (with_headers t m)) k ≡ or_all (h.get_all m k) (h.get_all (headers t) k)

pub record ConnectorService (h : Headers) (u : Urls) (x : Matchers h u) : Type 0 where
  pub inner : Backend
  pub proxies : List (Matcher h u x)
  pub user_agent : Option h.HeaderValue
  pub local_transport : Bool

-- The way to a destination.
pub data Plan (h : Headers) (u : Urls) (x : Matchers h u) (Tunnel : Type 0) : Type 0 where
  over_local_transport : Plan h u x Tunnel
  directly : x.Uri → (is_proxy : Bool) → Plan h u x Tunnel
  over_socks : DnsResolve → Intercepted h u x → (over_tls : Bool) → Plan h u x Tunnel
  tunneled : Tunnel → (host : String) → Plan h u x Tunnel
  failed : String → Plan h u x Tunnel

abbrev pub scheme_is : String → Option String → Bool
scheme_is s none = false
scheme_is s (some t) = str_eq t s

abbrev pub has_tls : Backend → Bool
has_tls plain_http = false
has_tls _ = true

module _ {h : Headers} {Uri : Type 0} (v : HeaderValues h) (t : TunnelLib h Uri) where
  abbrev pub with_auth : t.Tunnel → Option h.HeaderValue → t.Tunnel
  with_auth tunnel none = tunnel
  with_auth tunnel (some auth) = t.with_auth tunnel auth

  abbrev pub with_user_agent : t.Tunnel → Option h.HeaderValue → t.Tunnel
  with_user_agent tunnel none = tunnel
  with_user_agent tunnel (some ua) = t.with_headers tunnel (h.insert v.empty "user-agent" ua)

  abbrev pub with_custom : t.Tunnel → Option h.HeaderMap → t.Tunnel
  with_custom tunnel none = tunnel
  with_custom tunnel (some custom) = t.with_headers tunnel custom

  -- The tunnel of each TLS library, which differ in the order of the headers.
  unfoldable pub tunnel_to :
      Backend → Uri → Option h.HeaderValue → Option h.HeaderValue → Option h.HeaderMap → t.Tunnel
  tunnel_to rustls_tls proxy_dst auth user_agent misc =
      with_user_agent (with_custom (with_auth (t.new proxy_dst) auth) misc) user_agent
  tunnel_to _ proxy_dst auth user_agent misc =
      with_custom (with_user_agent (with_auth (t.new proxy_dst) auth) user_agent) misc

module _ {h : Headers} {u : Urls} {x : Matchers h u} (v : HeaderValues h) (p : UriParts x.Uri)
    (t : TunnelLib h x.Uri) (is_server_name : String → Bool) where
  -- The check of the name by rustls.
  abbrev pub named : Backend → String → (String → Plan h u x t.Tunnel) → Plan h u x t.Tunnel
  named rustls_tls host plan =
      if is_server_name host then plan host else failed "Invalid Server Name"
  named _ host plan = plan host

  -- The name that the TLS handshake is made with.
  abbrev pub with_server_name :
      Backend → x.Uri → (String → Plan h u x t.Tunnel) → Plan h u x t.Tunnel
  with_server_name inner dst plan = elim (p.host dst) [
    | none ↦ failed "no host in url"
    | some host ↦ named inner host plan
  ]

  unfoldable pub connect_socks :
      Backend → x.Uri → DnsResolve → Intercepted h u x → Plan h u x t.Tunnel
  connect_socks inner dst dns i =
      if has_tls inner && scheme_is "https" (x.scheme dst)
      then with_server_name inner dst (λ host. over_socks dns i true)
      else over_socks dns i false

  -- The part of `connect_via_proxy` behind the match on SOCKS.
  unfoldable pub connect_http_proxy :
      ConnectorService h u x → x.Uri → Intercepted h u x → Plan h u x t.Tunnel
  unfolding tunnel_to
  connect_http_proxy c dst i =
      let proxy_dst = x.address i.inner in
      if has_tls c.inner && scheme_is "https" (x.scheme dst)
      then with_server_name c.inner dst (
          tunneled (tunnel_to v t c.inner proxy_dst (intercepted_auth i) c.user_agent i.extra.misc))
      else directly proxy_dst true

  unfoldable pub connect_via_proxy :
      ConnectorService h u x → x.Uri → Intercepted h u x → Plan h u x t.Tunnel
  unfolding connect_socks connect_http_proxy
  connect_via_proxy c dst i = elim (x.scheme (x.address i.inner)) [
    | none ↦ failed "proxy scheme expected"
    | some s ↦
        if str_eq s "socks4" || str_eq s "socks5"
        then connect_socks c.inner dst local i
        else if str_eq s "socks4a" || str_eq s "socks5h"
        then connect_socks c.inner dst proxy i
        else connect_http_proxy c dst i
  ]

  -- `call` of the connector.
  unfoldable pub call : ConnectorService h u x → x.Uri → Option (Plan h u x t.Tunnel)
  unfolding connect_via_proxy
  call c dst =
      if c.local_transport
      then some over_local_transport
      else Option.map
          (λ found. elim found [ some i ↦ connect_via_proxy c dst i | none ↦ directly dst false ])
          (first (λ m. intercept m dst) c.proxies)

pub data SocksProxyError (Url : Type 0) : Type 0 where
  no_host_in_url : SocksProxyError Url
  local_resolve : Source Url → SocksProxyError Url

-- The destination that a SOCKS proxy is asked for.
pub record SocksTarget : Type 0 where
  pub https : Bool
  pub host : String
  pub port : ℕ

-- An address as the host of a URI.
abbrev pub host_text : SocketAddr → String
host_text a = if a.is_ipv6 then append "[" (append a.ip "]") else a.ip

module _ {Url Uri : Type 0} (p : UriParts Uri) (r : Resolve Url) where
  -- The host as `socks::connect` finds it.
  abbrev pub socks_host : DnsResolve → Uri → String → Result String (SocksProxyError Url)
  unfolding http_resolve
  socks_host DnsResolve.proxy dst host = ok host
  socks_host local dst host = elim (http_resolve p r dst) [
    | err e ↦ err (local_resolve e)
    | ok [] ↦ ok host
    | ok (a ∷ rest) ↦ ok (host_text a)
  ]

  -- `socks::connect`, up to the request to the proxy.
  unfoldable pub socks_target : DnsResolve → Uri → Result SocksTarget (SocksProxyError Url)
  unfolding socks_host
  socks_target dns dst = elim (p.host dst) [
    | none ↦ err no_host_in_url
    | some host ↦
        let https = scheme_is "https" (p.scheme_str dst) in
        let port = get_or (if https then 443 else 80) (p.port dst) in
        elim (socks_host dns dst host) [
          | err e ↦ err e
          | ok found ↦ ok (record { https = https; host = found; port = port })
        ]
  ]
