-- ===== src/ClientBuilder/Verification.antt =====
-- src/async_impl/client.rs: what a client over `rustls` verifies of its peer.
use reqwest.Prelude.{
  ℕ, ◌≡◌, refl, Bool, true, false, not, ◌&&◌, Option, none, some, List, [], ◌∷◌, ok, and_then-ok,
  if◌then◌else◌,
}
use reqwest.Http.{Headers, Urls}
use reqwest.Error.{Source, builder_error, text}
use reqwest.Proxy.{Matchers}
use reqwest.Tls.{Certificate, Rustls, rustls_store, rustls_der}
use reqwest.ClientBuilder.{ClientBuilder, Kept}
use reqwest.ClientBuilder.Backends.{
  NativeTls, RustlsTls, Libraries, Verifier, no_verifier, ignore_hostname, platform_verifier,
  platform_verifier_with, webpki_verifier, or_fail, supported, platform, webpki, verifier_of,
  verifier_for, rustls_tls,
}
use reqwest.ClientBuilder.Build.{Client, with_rustls, build}
use reqwest.ClientBuilder.Build.Inversion.{build-rustls_tls, configured_ok, guarded_ok}

module _ {Url : Type 0} {r : Rustls Url} where
  -- Whether a certificate must lead to a root.
  abbrev pub checks_chain : Verifier Url r → Bool
  checks_chain no_verifier = false
  checks_chain _ = true

  abbrev pub checks_hostname : Verifier Url r → Bool
  checks_hostname no_verifier = false
  checks_hostname (ignore_hostname store) = false
  checks_hostname _ = true

  -- The revocation lists that are looked at.
  abbrev pub revocations : Verifier Url r → List (List ℕ)
  revocations (webpki_verifier store crls) = crls
  revocations _ = []

  -- The three as one.
  abbrev pub Verifies : Verifier Url r → Bool → Bool → List (List ℕ) → Type 0
  Verifies v chain hostname lists =
      (checks_chain v ≡ chain) × (checks_hostname v ≡ hostname) × (revocations v ≡ lists)

or_fail_ok {ℓ} :
    {A : Type ℓ} {Url : Type 0} (o : Option (Source Url)) (a b : A) → or_fail o a ≡ ok b → a ≡ b
or_fail_ok none a b e = cc
or_fail_ok (some bad) a b e = cc

module _ {Url : Type 0} {r : Rustls Url} (l : Libraries (NativeTls Url r) Url r) where
  platform-Verifies :
      (crls : List (List ℕ)) (certs : List Certificate) (v : Verifier Url r)
      → platform l crls certs ≡ ok v
      → Verifies v true true crls
  unfolding platform
  platform-Verifies [] [] v e =
      let same = or_fail_ok l.verifier_new platform_verifier v e in rw⁻¹ same (refl, refl, refl)
  platform-Verifies [] (cert ∷ certs) v e =
      let (ders, read, made) =
        and_then-ok (rustls_der r (cert ∷ certs))
          (λ ders. or_fail (l.verifier_new_with_extra_roots ders) (platform_verifier_with ders)) v
          e in
      let same =
        or_fail_ok (l.verifier_new_with_extra_roots ders) (platform_verifier_with ders) v made in
      rw⁻¹ same (refl, refl, refl)
  platform-Verifies (list ∷ lists) certs v e = cc

  webpki-Verifies :
      (crls : List (List ℕ)) (store : r.RootCertStore) (v : Verifier Url r)
      → webpki l crls store ≡ ok v
      → Verifies v true true crls
  unfolding webpki
  webpki-Verifies [] store v e =
      let same : webpki_verifier store [] ≡ v = cc in rw⁻¹ same (refl, refl, refl)
  webpki-Verifies (list ∷ lists) store v e =
      let made =
        guarded_ok (not (l.with_crls store (list ∷ lists)))
          (builder_error (text "invalid TLS verification settings"))
          (ok (webpki_verifier store (list ∷ lists))) v e in
      let same : webpki_verifier store (list ∷ lists) ≡ v = cc in rw⁻¹ same (refl, refl, refl)

  verifier_for-Verifies :
      (certs_on hostname_on only : Bool) (crls : List (List ℕ)) (certs : List Certificate)
      (v : Verifier Url r)
      → verifier_for l certs_on hostname_on only crls certs ≡ ok v
      → Verifies v certs_on (certs_on && hostname_on) (if certs_on && hostname_on then crls else [])
  unfolding verifier_for
  verifier_for-Verifies false hostname_on only crls certs v e =
      let same : no_verifier ≡ v = cc in rw⁻¹ same (refl, refl, refl)
  verifier_for-Verifies true false false crls certs v e = cc
  verifier_for-Verifies true false true crls certs v e =
      let (store, read, made) =
        and_then-ok (rustls_store r certs) (λ store. ok (ignore_hostname store)) v e in
      let same : ignore_hostname store ≡ v = cc in rw⁻¹ same (refl, refl, refl)
  verifier_for-Verifies true true false crls certs v e = platform-Verifies crls certs v e
  verifier_for-Verifies true true true crls certs v e =
      let (store, read, made) = and_then-ok (rustls_store r certs) (webpki l crls) v e in
      webpki-Verifies crls store v made

module _ {h : Headers} {u : Urls} {x : Matchers h u} {k : Kept} {r : Rustls u.Url}
    (l : Libraries (NativeTls u.Url r) u.Url r) where
  -- A client over `rustls` checks that a certificate leads to a root unless that is switched off, and
  -- that it names the host unless one of the two checks is switched off. It looks at the revocation
  -- lists it was given, all of them, only while both checks are on: with one of them off they are
  -- dropped, without an error.
  pub build-Verifies :
      (c : ClientBuilder h u x k r) (client : Client h u x k r) (t : RustlsTls u.Url r)
      → build l c ≡ ok client
      → client.tls ≡ with_rustls t
      → Verifies t.verifier c.certs_verification
          (c.certs_verification && c.hostname_verification)
          (if c.certs_verification && c.hostname_verification then c.crls else [])
  unfolding rustls_tls verifier_of
  build-Verifies c client t built over =
      let (same, some_left, verified) =
        configured_ok l (supported l c) c t (build-rustls_tls l c client t built over) in
      verifier_for-Verifies l c.certs_verification c.hostname_verification c.tls_certs_only c.crls
        c.root_certs t.verifier verified
