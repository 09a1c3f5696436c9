-- ===== src/ClientBuilder/Tests.antt =====
-- The theorems on the builder of clients at concrete configurations.
use reqwest.Prelude.{
  ℕ, ◌≡◌, ◌≢◌, refl, true, false, ◌&&◌, none, some, List, [], ◌∷◌, ◌++◌, All, ok, err,
  if◌then◌else◌,
}
use reqwest.Http.Marked.{marked_headers, marked_values, plain}
use reqwest.Http.Plain.{PlainUrl}
use reqwest.Error.{builder_error, end}
use reqwest.Proxy.{Matchers, Proxy, system, intercept_url, all, new as new_proxy}
use reqwest.Proxy.Plain.{matchers_over, proxy_urls}
use reqwest.Tls.{Rustls, from_rustls, rustls_store, tls1_2, tls_v1_2, tls_v1_3}
use reqwest.ClientBuilder.{ClientBuilder, Kept, TlsBackend, new, rustls, built_native_tls}
use reqwest.ClientBuilder.Calls.{Call, apply, run}
use reqwest.ClientBuilder.Backends.{NativeTls, RustlsTls, Libraries, webpki_verifier, alpn}
use reqwest.ClientBuilder.Build.{Client, with_rustls, with_built_native_tls, finished, build}
use reqwest.ClientBuilder.Histories.{chosen, wants_env, build-proxies}
use reqwest.ClientBuilder.Errors.{last_failure, build-last_failure}
use reqwest.ClientBuilder.Versions.{Between, build-Between}
use reqwest.ClientBuilder.Verification.{Verifies, build-Verifies}

abbrev matchers : Matchers marked_headers proxy_urls
matchers = matchers_over marked_headers plain

abbrev kept : Kept
kept = record {
  RetryBuilder = Unit {0};
  default_retry = tt;
  Middleware = Unit {0};
  Logger = Unit {0};
  Layer = Unit {0};
  CookieStore = Unit {0};
  default_jar = tt;
  TlsConnector = Unit {0};
}

-- A store is the list of its certificates.
abbrev certs : Rustls PlainUrl
certs = record {
  RootCertStore = List (List ℕ);
  empty = [];
  add = λ store cert. ok (store ++ cert ∷ []);
  pem_reader_iter = λ text. some text ∷ [];
  ClientConfig = Unit {0};
  PrivateKey = Unit {0};
  NativeIdentity = Unit {0};
}

abbrev libraries : Libraries (NativeTls PlainUrl certs) PlainUrl certs
libraries = record {
  all_versions = tls_v1_3 ∷ tls_v1_2 ∷ [];
  with_protocol_versions = λ vs. true;
  verifier_new = none;
  verifier_new_with_extra_roots = λ ders. none;
  with_crls = λ store lists. true;
  with_client_auth_cert = λ chain key. none;
  build_native = λ tls. none;
}

abbrev OneCall : Type 0
OneCall = Call marked_headers proxy_urls matchers kept certs

abbrev Builder : Type 0
Builder = ClientBuilder marked_headers proxy_urls matchers kept certs

abbrev start : TlsBackend kept PlainUrl certs → Builder
start backend = new marked_values (plain "*/*") (plain "reqwest/0.13.0") backend

abbrev proxy : Proxy marked_headers proxy_urls
proxy = new_proxy (
    intercept_url all (record {
      scheme = "http";
      username = "";
      password = none;
      host = "proxy.test";
      fragment = none;
      query = none;
    }))

abbrev calls : List OneCall
calls = Call.proxy proxy ∷ Call.no_proxy ∷ Call.env_config_proxy ∷ Call.gzip false ∷ []

abbrev proxied : Client marked_headers proxy_urls matchers kept certs
proxied = finished (run (start (built_native_tls tt)) calls) (with_built_native_tls tt)

proxied_built : build libraries (run (start (built_native_tls tt)) calls) ≡ ok proxied
unfolding new build run finished apply
proxied_built = refl

build-proxies_example :
    proxied.inner.proxies ≡ chosen calls ++ (if wants_env calls then system ∷ [] else [])
build-proxies_example =
    build-proxies libraries marked_values (plain "*/*") (plain "reqwest/0.13.0")
      (built_native_tls tt) calls proxied proxied_built

abbrev failing : List OneCall
failing = Call.user_agent (err end) ∷ Call.no_proxy ∷ []

failing_failure : last_failure failing ≡ some (builder_error end)
unfolding last_failure
failing_failure = refl

build-last_failure_example : build libraries (run (start rustls) failing) ≡ err (builder_error end)
build-last_failure_example =
    build-last_failure libraries (start rustls) failing (builder_error end) failing_failure

abbrev limits : List OneCall
limits =
    Call.tls_version_min tls1_2
    ∷ Call.tls_version_max tls1_2
    ∷ Call.tls_certs_only []
    ∷ Call.add_crl (7 ∷ [])
    ∷ []

abbrev strict : Builder
strict = run (start rustls) limits

abbrev strict_tls : RustlsTls PlainUrl certs
strict_tls = record {
  versions = tls_v1_2 ∷ [];
  verifier = webpki_verifier [] ((7 ∷ []) ∷ []);
  identity = none;
  enable_sni = true;
  key_log = false;
  alpn_protocols = alpn strict.http_version_pref;
}

abbrev strict_client : Client marked_headers proxy_urls matchers kept certs
strict_client = finished strict (with_rustls strict_tls)

strict_built : build libraries strict ≡ ok strict_client
unfolding new build run finished apply from_rustls rustls_store
strict_built = refl

strict_over : strict_client.tls ≡ with_rustls strict_tls
unfolding finished
strict_over = refl

strict_min : strict.min_tls_version ≡ some tls1_2
unfolding new run apply
strict_min = refl

strict_max : strict.max_tls_version ≡ some tls1_2
unfolding new run apply
strict_max = refl

build-Between_example : All (Between tls1_2 tls1_2) strict_tls.versions × (strict_tls.versions ≢ [])
build-Between_example =
    build-Between libraries strict strict_client strict_tls tls1_2 tls1_2 strict_built strict_over
      strict_min strict_max

build-Verifies_example :
    Verifies strict_tls.verifier strict.certs_verification
      (strict.certs_verification && strict.hostname_verification)
      (if strict.certs_verification && strict.hostname_verification then strict.crls else [])
build-Verifies_example =
    build-Verifies libraries strict strict_client strict_tls strict_built strict_over
