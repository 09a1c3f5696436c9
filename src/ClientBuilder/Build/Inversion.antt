-- ===== src/ClientBuilder/Build/Inversion.antt =====
-- src/async_impl/client.rs: what a successful `build` went through.
use reqwest.Prelude.{
  ℕ, Bool, true, false, not, if◌then◌else◌, ◌≢◌, List, [], ◌∷◌, ◌≡◌, sym, ap, ◌∙◌, Option, none,
  some, Result, ok, err, and_then, and_then-ok,
}
use reqwest.Http.{Headers, Urls}
use reqwest.Error.{Error, builder_error, text}
use reqwest.Proxy.{Matchers}
use reqwest.Tls.{Rustls, ProtocolVersion}
use reqwest.ClientBuilder.{
  ClientBuilder, Kept, TlsBackend, native_tls, built_native_tls, rustls, built_rustls,
  unknown_preconfigured,
}
use reqwest.ClientBuilder.Backends.{
  NativeTls, RustlsTls, Libraries, native_tls_of, rustls_tls, verifier_of, client_auth, configured,
  Verifier, alpn,
}
use reqwest.ClientBuilder.Build.{
  unless, Client, Tls, with_native_tls, with_rustls, finished, build, tls_with,
}

unless_ok {ℓ κ} :
    {A : Type ℓ} {E : Type κ} (o : Option E) (r : Result A E) (a : A) → unless o r ≡ ok a → r ≡ ok a
unless_ok none r a e = e
unless_ok (some bad) r a e = cc

pub guarded_ok {ℓ κ} :
    {A : Type ℓ} {E : Type κ} (b : Bool) (e : E) (r : Result A E) (a : A)
    → (if b then err e else r) ≡ ok a
    → r ≡ ok a
guarded_ok true e r a given = cc
guarded_ok false e r a given = given

module _ {h : Headers} {u : Urls} {x : Matchers h u} {k : Kept} {r : Rustls u.Url}
    (l : Libraries (NativeTls u.Url r) u.Url r) where
  pub build-finished :
      (c : ClientBuilder h u x k r) (client : Client h u x k r)
      → build l c ≡ ok client
      → (tls : Tls k u.Url r) × (tls_with l c.tls c ≡ ok tls) × (client ≡ finished c tls)
  unfolding build
  build-finished c client built =
      let left =
        unless_ok c.error (and_then (tls_with l c.tls c) (λ tls. ok (finished c tls))) client
          built in
      let (tls, found, same) =
        and_then-ok (tls_with l c.tls c) (λ tls. ok (finished c tls)) client left in
      (tls, found, cc)

  tls_with-rustls_tls :
      (backend : TlsBackend k u.Url r) (c : ClientBuilder h u x k r) (t : RustlsTls u.Url r)
      → tls_with l backend c ≡ ok (with_rustls t)
      → rustls_tls l c ≡ ok t
  unfolding tls_with
  tls_with-rustls_tls native_tls c t e =
      let (t', found, same) =
        and_then-ok (native_tls_of l c) (λ t'. ok (with_native_tls t')) (with_rustls t) e in
      cc
  tls_with-rustls_tls (built_native_tls conn) c t e = cc
  tls_with-rustls_tls (built_rustls config) c t e = cc
  tls_with-rustls_tls rustls c t e =
      let (t', found, same) =
        and_then-ok (rustls_tls l c) (λ t'. ok (with_rustls t')) (with_rustls t) e in
      cc
  tls_with-rustls_tls unknown_preconfigured c t e = cc

  -- A client over `rustls` has the settings that the configuration gives.
  pub build-rustls_tls :
      (c : ClientBuilder h u x k r) (client : Client h u x k r) (t : RustlsTls u.Url r)
      → build l c ≡ ok client
      → client.tls ≡ with_rustls t
      → rustls_tls l c ≡ ok t
  unfolding finished
  build-rustls_tls c client t built over =
      let (tls, found, same) = build-finished c client built in
      let chosen : tls ≡ with_rustls t = sym (ap (λ d. d.tls) same) ∙ over in
      tls_with-rustls_tls c.tls c t (found ∙ ap ok chosen)

  -- What a configuration of `rustls` was made of.
  pub configured_ok :
      (vs : List ProtocolVersion) (c : ClientBuilder h u x k r) (t : RustlsTls u.Url r)
      → configured l vs c ≡ ok t
      → (t.versions ≡ vs) × (t.versions ≢ []) × (verifier_of l c ≡ ok t.verifier)
  unfolding configured
  configured_ok [] c t e = cc
  configured_ok (v ∷ vs) c t e =
      let made : Verifier u.Url r → Option (List (List ℕ) × r.PrivateKey) → RustlsTls u.Url r =
        λ verifier id. record {
          versions = v ∷ vs;
          verifier = verifier;
          identity = id;
          enable_sni = c.tls_sni;
          key_log = c.tls_sslkeylogfile;
          alpn_protocols = alpn c.http_version_pref;
        } in
      let rest : Verifier u.Url r → Result (RustlsTls u.Url r) (Error u.Url) =
        λ verifier. and_then (client_auth l c.identity) (λ id. ok (made verifier id)) in
      let left =
        guarded_ok (not (l.with_protocol_versions (v ∷ vs)))
          (builder_error (text "invalid TLS versions")) (and_then (verifier_of l c) rest) t e in
      let (verifier, verified, more) = and_then-ok (verifier_of l c) rest t left in
      let (id, found, same) =
        and_then-ok (client_auth l c.identity) (λ id. ok (made verifier id)) t more in
      let whole : made verifier id ≡ t = cc in
      let kept : t.versions ≡ v ∷ vs = sym (ap (λ s. s.versions) whole) in
      (kept, (λ none_left. cc), verified ∙ ap (λ s. ok s.verifier) whole)
