-- ===== src/ClientBuilder/TlsOptions.antt =====
-- src/async_impl/client.rs, `ClientBuilder`: the options of TLS. A deprecated method calls the one that
-- replaces it.
use reqwest.Prelude.{ℕ, Bool, true, not, some, List, [], ◌∷◌, ◌++◌}
use reqwest.Http.{Headers, Urls}
use reqwest.Proxy.{Matchers}
use reqwest.Tls.{Version, Certificate, Identity, Rustls}
use reqwest.ClientBuilder.{
  ClientBuilder, Kept, native_tls, built_native_tls, rustls, built_rustls, unknown_preconfigured,
}

-- What a value of any type may be cast to.
pub data Preconfigured (k : Kept) (Url : Type 0) (r : Rustls Url) : Type 0 where
  tls_connector : k.TlsConnector → Preconfigured k Url r
  client_config : r.ClientConfig → Preconfigured k Url r
  unrecognized : Preconfigured k Url r

module _ {h : Headers} {u : Urls} {x : Matchers h u} {k : Kept} {r : Rustls u.Url} where
  abbrev pub tls_certs_merge : ClientBuilder h u x k r → List Certificate → ClientBuilder h u x k r
  tls_certs_merge b certs = record b { root_certs = b.root_certs ++ certs }

  abbrev pub tls_certs_only : ClientBuilder h u x k r → List Certificate → ClientBuilder h u x k r
  tls_certs_only b certs = record b { root_certs = b.root_certs ++ certs; tls_certs_only = true }

  abbrev pub add_root_certificate : ClientBuilder h u x k r → Certificate → ClientBuilder h u x k r
  add_root_certificate b cert = record b { root_certs = b.root_certs ++ cert ∷ [] }

  abbrev pub tls_crls_only : ClientBuilder h u x k r → List (List ℕ) → ClientBuilder h u x k r
  tls_crls_only b lists = record b { crls = b.crls ++ lists }

  abbrev pub add_crl : ClientBuilder h u x k r → List ℕ → ClientBuilder h u x k r
  add_crl b list = record b { crls = b.crls ++ list ∷ [] }

  abbrev pub add_crls : ClientBuilder h u x k r → List (List ℕ) → ClientBuilder h u x k r
  add_crls b lists = record b { crls = b.crls ++ lists }

  abbrev pub identity : ClientBuilder h u x k r → Identity u.Url r → ClientBuilder h u x k r
  identity b id = record b { identity = some id }

  abbrev pub tls_danger_accept_invalid_hostnames :
      ClientBuilder h u x k r → Bool → ClientBuilder h u x k r
  tls_danger_accept_invalid_hostnames b accept = record b { hostname_verification = not accept }

  abbrev pub tls_danger_accept_invalid_certs :
      ClientBuilder h u x k r → Bool → ClientBuilder h u x k r
  tls_danger_accept_invalid_certs b accept = record b { certs_verification = not accept }

  abbrev pub tls_sni : ClientBuilder h u x k r → Bool → ClientBuilder h u x k r
  tls_sni b sni = record b { tls_sni = sni }

  abbrev pub tls_sslkeylogfile : ClientBuilder h u x k r → Bool → ClientBuilder h u x k r
  tls_sslkeylogfile b on = record b { tls_sslkeylogfile = on }

  abbrev pub tls_version_min : ClientBuilder h u x k r → Version → ClientBuilder h u x k r
  tls_version_min b version = record b { min_tls_version = some version }

  abbrev pub tls_version_max : ClientBuilder h u x k r → Version → ClientBuilder h u x k r
  tls_version_max b version = record b { max_tls_version = some version }

  abbrev pub tls_backend_native : ClientBuilder h u x k r → ClientBuilder h u x k r
  tls_backend_native b = record b { tls = native_tls }

  abbrev pub tls_backend_rustls : ClientBuilder h u x k r → ClientBuilder h u x k r
  tls_backend_rustls b = record b { tls = rustls }

  abbrev pub tls_info : ClientBuilder h u x k r → Bool → ClientBuilder h u x k r
  tls_info b info = record b { tls_info = info }

  unfoldable pub tls_backend_preconfigured :
      ClientBuilder h u x k r → Preconfigured k u.Url r → ClientBuilder h u x k r
  tls_backend_preconfigured b (tls_connector conn) = record b { tls = built_native_tls conn }
  tls_backend_preconfigured b (client_config conn) = record b { tls = built_rustls conn }
  tls_backend_preconfigured b unrecognized = record b { tls = unknown_preconfigured }
