-- ===== src/Dns.antt =====
-- src/dns/resolve.rs: resolving a URI's host, and the overrides of a client.
-- A resolver that is awaited is a function.
use reqwest.Prelude.{
  ℕ, Bool, ◌||◌, String, Option, none, some, List, map, get_or, is_some, str_eq, ◌==◌,
  if◌then◌else◌, Result, ok, err,
}
use reqwest.Error.{Source, text, other, end}

-- What is read of `http::Uri`.
pub record UriParts (Uri : Type 0) : Type 0 where
  pub scheme_str : Uri → Option String
  pub host : Uri → Option String
  pub port : Uri → Option ℕ

-- `SocketAddr`: an address of the network, as text, and a port.
pub record SocketAddr : Type 0 where
  pub ip : String
  pub is_ipv6 : Bool
  pub port : ℕ

module _ (Url : Type 0) where
  -- `Resolve`, with the names that `Name::from_str` accepts.
  pub record Resolve : Type 1 where
    pub Name : Type 0
    pub from_str : String → Option Name
    pub resolve : Name → Result (List SocketAddr) (Source Url)

abbrev pub is_socks : String → Bool
is_socks s = str_eq s "socks4" || str_eq s "socks4a" || str_eq s "socks5" || str_eq s "socks5h"

abbrev pub scheme_port : Option String → ℕ
scheme_port none = 80
scheme_port (some s) = if str_eq s "https" then 443 else if is_socks s then 1080 else 80

-- The port of the URI where it names one, or where the resolver has none.
abbrev pub with_port : ℕ → Bool → SocketAddr → SocketAddr
with_port port explicit_port addr =
    if explicit_port || addr.port == 0 then record addr { port = port } else addr

module _ {Url Uri : Type 0} (p : UriParts Uri) (r : Resolve Url) where
  abbrev pub set_ports :
      Uri → Result (List SocketAddr) (Source Url) → Result (List SocketAddr) (Source Url)
  set_ports target (err e) = err e
  set_ports target (ok addrs) = ok (
      map
        (with_port (get_or (scheme_port (p.scheme_str target)) (p.port target))
          (is_some (p.port target)))
        addrs)

  unfoldable pub http_resolve : Uri → Result (List SocketAddr) (Source Url)
  http_resolve target = elim (p.host target) [
    | none ↦ err (text "missing host")
    | some host ↦ elim (r.from_str host) [
      | none ↦ err (other end)
      | some name ↦ set_ports target (r.resolve name)
    ]
  ]

-- `DnsResolverWithOverrides`.
pub with_overrides :
    {Url : Type 0} (r : Resolve Url) → (r.Name → Option (List SocketAddr)) → Resolve Url
with_overrides r overrides = record r {
  resolve = λ name. elim (overrides name) [ some dest ↦ ok dest | none ↦ r.resolve name ];
}
