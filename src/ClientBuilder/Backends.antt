-- ===== src/ClientBuilder/Backends.antt =====
-- src/async_impl/client.rs, `ClientBuilder::build`: the settings of the two TLS libraries.
use reqwest.Prelude.{
  ℕ, Bool, true, false, not, String, Option, none, some, List, [], ◌∷◌, if◌then◌else◌, Result, ok,
  err, and_then,
}
use reqwest.Http.{Headers, Urls}
use reqwest.Error.{Error, Source, builder_error, text}
use reqwest.Proxy.{Matchers}
use reqwest.Tls.{
  Version, at_most, Protocol, to_native_tls, ProtocolVersion, from_rustls, Certificate, Rustls,
  rustls_store, rustls_der, Identity, pkcs12, pkcs8, pem_identity, incompatible,
}
use reqwest.ClientBuilder.{ClientBuilder, Kept, HttpVersionPref, http1, http2, all_http}

-- How the peer's certificate is verified. The roots of the platform come with further ones or without.
pub data Verifier (Url : Type 0) (r : Rustls Url) : Type 0 where
  no_verifier : Verifier Url r
  ignore_hostname : r.RootCertStore → Verifier Url r
  platform_verifier : Verifier Url r
  platform_verifier_with : List (List ℕ) → Verifier Url r
  webpki_verifier : r.RootCertStore → (crls : List (List ℕ)) → Verifier Url r

-- What the libraries decide: the versions that `rustls` supports and whether it takes some of them,
-- and the errors of its verifiers, of an identity and of the builder of `native_tls`.
pub record Libraries (NativeTls : Type 0) (Url : Type 0) (r : Rustls Url) : Type 0 where
  pub all_versions : List ProtocolVersion
  pub with_protocol_versions : List ProtocolVersion → Bool
  pub verifier_new : Option (Source Url)
  pub verifier_new_with_extra_roots : List (List ℕ) → Option (Source Url)
  pub with_crls : r.RootCertStore → List (List ℕ) → Bool
  pub with_client_auth_cert : List (List ℕ) → r.PrivateKey → Option (Source Url)
  pub build_native : NativeTls → Option (Source Url)

-- The settings of `native_tls`, with the feature of its ALPN.
pub record NativeTls (Url : Type 0) (r : Rustls Url) : Type 0 where
  pub request_alpns : List String
  pub danger_accept_invalid_hostnames : Bool
  pub danger_accept_invalid_certs : Bool
  pub use_sni : Bool
  pub disable_built_in_roots : Bool
  pub root_certificates : List Certificate
  pub identity : Option (Identity Url r)
  pub min_protocol_version : Option Protocol
  pub max_protocol_version : Option Protocol

-- The settings of `rustls`.
pub record RustlsTls (Url : Type 0) (r : Rustls Url) : Type 0 where
  pub versions : List ProtocolVersion
  pub verifier : Verifier Url r
  pub identity : Option (List (List ℕ) × r.PrivateKey)
  pub enable_sni : Bool
  pub key_log : Bool
  pub alpn_protocols : List String

-- `Vec::retain`.
unfoldable pub retain {ℓ} : {A : Type ℓ} → (A → Bool) → List A → List A
retain p [] = []
retain p (a ∷ rest) = let kept = retain p rest in if p a then a ∷ kept else kept

unfoldable pub is_from : Option Version → ProtocolVersion → Bool
is_from none v = true
is_from (some min) v = elim (from_rustls v) [ some version ↦ at_most min version | none ↦ true ]

unfoldable pub is_up_to : Option Version → ProtocolVersion → Bool
is_up_to none v = true
is_up_to (some max) v = elim (from_rustls v) [ some version ↦ at_most version max | none ↦ false ]

abbrev pub alpn : HttpVersionPref → List String
alpn http1 = "http/1.1" ∷ []
alpn http2 = "h2" ∷ []
alpn all_http = "h2" ∷ "http/1.1" ∷ []

abbrev pub or_fail {ℓ} :
    {A : Type ℓ} {Url : Type 0} → Option (Source Url) → A → Result A (Error Url)
or_fail (some e) a = err (builder_error e)
or_fail none a = ok a

module _ {Url : Type 0} {r : Rustls Url} (l : Libraries (NativeTls Url r) Url r) where
  -- `Identity::add_to_rustls`.
  unfoldable pub client_auth :
      Option (Identity Url r) → Result (Option (List (List ℕ) × r.PrivateKey)) (Error Url)
  client_auth none = ok none
  client_auth (some (pem_identity key certs)) =
      or_fail (l.with_client_auth_cert certs key) (some (certs, key))
  client_auth (some (pkcs12 id)) = err incompatible
  client_auth (some (pkcs8 id)) = err incompatible

  -- The roots of the platform, on which revocation lists are refused.
  unfoldable pub platform : List (List ℕ) → List Certificate → Result (Verifier Url r) (Error Url)
  platform (list ∷ lists) certs =
      err (builder_error (text "CRLs only allowed with tls_certs_only()"))
  platform [] [] = or_fail l.verifier_new platform_verifier
  platform [] (cert ∷ certs) =
      and_then (rustls_der r (cert ∷ certs))
        (λ ders. or_fail (l.verifier_new_with_extra_roots ders) (platform_verifier_with ders))

  -- The given roots only.
  unfoldable pub webpki : List (List ℕ) → r.RootCertStore → Result (Verifier Url r) (Error Url)
  webpki [] store = ok (webpki_verifier store [])
  webpki (list ∷ lists) store =
      if not (l.with_crls store (list ∷ lists))
      then err (builder_error (text "invalid TLS verification settings"))
      else ok (webpki_verifier store (list ∷ lists))

  -- From `certs_verification`, `hostname_verification`, `tls_certs_only`, `crls` and `root_certs`.
  unfoldable pub verifier_for :
      (certs_on hostname_on only : Bool)
      → List (List ℕ)
      → List Certificate
      → Result (Verifier Url r) (Error Url)
  unfolding platform webpki
  verifier_for certs_on hostname_on only crls certs =
      if not certs_on
      then ok no_verifier
      else if not hostname_on
      then (if not only
          then err (
              builder_error
                (text "disabling rustls hostname verification only allowed with tls_certs_only()"))
          else and_then (rustls_store r certs) (λ store. ok (ignore_hostname store)))
      else if not only
      then platform crls certs
      else and_then (rustls_store r certs) (webpki crls)

module _ {Url : Type 0} {r : Rustls Url} where
  -- `Identity::add_to_native_tls`.
  unfoldable pub native_identity :
      Option (Identity Url r) → Result (Option (Identity Url r)) (Error Url)
  native_identity none = ok none
  native_identity (some (pem_identity key certs)) = err incompatible
  native_identity (some (pkcs12 id)) = ok (some (pkcs12 id))
  native_identity (some (pkcs8 id)) = ok (some (pkcs8 id))

module _ {Url : Type 0} where
  unfoldable pub protocol : String → Option Version → Result (Option Protocol) (Error Url)
  protocol message none = ok none
  protocol message (some version) = elim (to_native_tls version) [
    | some p ↦ ok (some p)
    | none ↦ err (builder_error (text message))
  ]

module _ {h : Headers} {u : Urls} {x : Matchers h u} {k : Kept} {r : Rustls u.Url}
    (l : Libraries (NativeTls u.Url r) u.Url r) where
  unfoldable pub supported : ClientBuilder h u x k r → List ProtocolVersion
  unfolding retain is_from is_up_to
  supported c =
      retain (is_up_to c.max_tls_version) (retain (is_from c.min_tls_version) l.all_versions)

  unfoldable pub verifier_of : ClientBuilder h u x k r → Result (Verifier u.Url r) (Error u.Url)
  unfolding verifier_for
  verifier_of c =
      verifier_for l c.certs_verification c.hostname_verification c.tls_certs_only c.crls
        c.root_certs

  -- From the versions that are left on.
  unfoldable pub configured :
      List ProtocolVersion → ClientBuilder h u x k r → Result (RustlsTls u.Url r) (Error u.Url)
  unfolding verifier_of client_auth
  configured [] c = err (builder_error (text "empty supported tls versions"))
  configured (v ∷ vs) c =
      if not (l.with_protocol_versions (v ∷ vs))
      then err (builder_error (text "invalid TLS versions"))
      else and_then (verifier_of c) (λ verifier. and_then (client_auth l c.identity) (λ id.
        ok (record {
          versions = v ∷ vs;
          verifier = verifier;
          identity = id;
          enable_sni = c.tls_sni;
          key_log = c.tls_sslkeylogfile;
          alpn_protocols = alpn c.http_version_pref;
        })))

  unfoldable pub rustls_tls : ClientBuilder h u x k r → Result (RustlsTls u.Url r) (Error u.Url)
  unfolding supported configured
  rustls_tls c = configured (supported c) c

  unfoldable pub native_tls_of : ClientBuilder h u x k r → Result (NativeTls u.Url r) (Error u.Url)
  unfolding native_identity protocol
  native_tls_of c = and_then (native_identity c.identity) (λ id.
      and_then (protocol "invalid minimum TLS version for backend" c.min_tls_version) (λ min.
        and_then (protocol "invalid maximum TLS version for backend" c.max_tls_version) (λ max.
          let tls : NativeTls u.Url r = record {
            request_alpns = alpn c.http_version_pref;
            danger_accept_invalid_hostnames = not c.hostname_verification;
            danger_accept_invalid_certs = not c.certs_verification;
            use_sni = c.tls_sni;
            disable_built_in_roots = c.tls_certs_only;
            root_certificates = c.root_certs;
            identity = id;
            min_protocol_version = min;
            max_protocol_version = max;
          } in
          or_fail (l.build_native tls) tls)))
