-- ===== src/Connect/Socks.antt =====
-- src/connect.rs: which destinations are resolved before a SOCKS proxy is asked for them.
use reqwest.Prelude.{
  ◌≡◌, refl, sym, ap, ◌∙◌, Bool, true, false, ◌&&◌, String, some, ◌⊎◌, inl, inr, Bool-cases,
  Option-cases,
}
use reqwest.Http.{Headers, HeaderValues, Urls}
use reqwest.Proxy.{Matchers, Intercepted}
use reqwest.Dns.{UriParts, Resolve}
use reqwest.Connect.{
  Backend, plain_http, native_tls, rustls_tls, DnsResolve, TunnelLib, ConnectorService, Plan,
  over_socks, has_tls, scheme_is, named, with_server_name, connect_socks, connect_via_proxy,
  socks_target,
}

module _ {h : Headers} {u : Urls} {x : Matchers h u} (v : HeaderValues h) (p : UriParts x.Uri)
    (t : TunnelLib h x.Uri) (is_server_name : String → Bool) where
  abbrev keeps_name : Plan h u x t.Tunnel → Bool
  keeps_name (over_socks DnsResolve.local i tls) = false
  keeps_name _ = true

  named-keeps_name :
      (inner : Backend) (host : String) (i : Intercepted h u x)
      → keeps_name (named v p t is_server_name inner host (λ n. over_socks DnsResolve.proxy i true))
        ≡ true
  named-keeps_name plain_http host i = refl
  named-keeps_name native_tls host i = refl
  named-keeps_name rustls_tls host i = elim (Bool-cases (is_server_name host)) [
    | inl good ↦ rw good refl
    | inr bad ↦ rw bad refl
  ]

  connect_socks-keeps_name :
      (inner : Backend) (dst : x.Uri) (i : Intercepted h u x)
      → keeps_name (connect_socks v p t is_server_name inner dst DnsResolve.proxy i) ≡ true
  unfolding connect_socks
  connect_socks-keeps_name inner dst i =
      elim (Bool-cases (has_tls inner && scheme_is "https" (x.scheme dst))) [
        | inr other ↦ rw (connect_socks, other) refl
        | inl https ↦ elim (Option-cases (p.host dst)) [
          | inl absent ↦ rw (connect_socks, https, with_server_name, absent) refl
          | inr (host, found) ↦
              rw (connect_socks, https, with_server_name, found) (named-keeps_name inner host i)
        ]
      ]

  via_proxy-keeps_name :
      (c : ConnectorService h u x) (dst : x.Uri) (i : Intercepted h u x)
      → (x.scheme (x.address i.inner) ≡ some "socks4a")
        ⊎ (x.scheme (x.address i.inner) ≡ some "socks5h")
      → keeps_name (connect_via_proxy v p t is_server_name c dst i) ≡ true
  unfolding connect_via_proxy
  via_proxy-keeps_name c dst i (inl found) =
      rw (connect_via_proxy, found) (connect_socks-keeps_name c.inner dst i)
  via_proxy-keeps_name c dst i (inr found) =
      rw (connect_via_proxy, found) (connect_socks-keeps_name c.inner dst i)

  -- Behind a proxy of the schemes `socks4a` and `socks5h` a client resolves no name itself: what the
  -- proxy is asked for is the same whatever the client's own resolver would answer.
  pub socks_target_remote :
      {E : Type 0} (c : ConnectorService h u x) (dst : x.Uri) (i i' : Intercepted h u x)
      (dns : DnsResolve) (over_tls : Bool) (r r' : Resolve E)
      → (x.scheme (x.address i.inner) ≡ some "socks4a")
        ⊎ (x.scheme (x.address i.inner) ≡ some "socks5h")
      → connect_via_proxy v p t is_server_name c dst i ≡ over_socks dns i' over_tls
      → socks_target p r dns dst ≡ socks_target p r' dns dst
  unfolding socks_target
  socks_target_remote c dst i i' DnsResolve.local over_tls r r' s e =
      cc (sym (via_proxy-keeps_name c dst i s) ∙ ap keeps_name e)
  socks_target_remote c dst i i' DnsResolve.proxy over_tls r r' s e = refl
