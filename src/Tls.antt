-- ===== src/Tls.antt =====
-- src/tls.rs: the versions of TLS, and the certificates and identities that a client is given.
-- What the crates `rustls` and `native_tls` do with them is a parameter.
pub mod Stores
mod Tests
use reqwest.Prelude.{ℕ, Bool, Option, none, some, List, [], ◌∷◌, ◌++◌, leb, Result, ok, err}
use reqwest.Error.{Error, Source, builder_error, text}

pub data Version : Type 0 where
  tls1_0 tls1_1 tls1_2 tls1_3 : Version

-- The derived order is that of the constructors.
abbrev pub rank : Version → ℕ
rank tls1_0 = 0
rank tls1_1 = 1
rank tls1_2 = 2
rank tls1_3 = 3

abbrev pub at_most : Version → Version → Bool
at_most a b = leb (rank a) (rank b)

-- `native_tls::Protocol`.
pub data Protocol : Type 0 where
  sslv3 tlsv10 tlsv11 tlsv12 : Protocol

unfoldable pub to_native_tls : Version → Option Protocol
to_native_tls tls1_0 = some tlsv10
to_native_tls tls1_1 = some tlsv11
to_native_tls tls1_2 = some tlsv12
to_native_tls tls1_3 = none

-- `rustls::ProtocolVersion`; the versions of DTLS and unknown ones are one.
pub data ProtocolVersion : Type 0 where
  ssl_v2 ssl_v3 tls_v1_0 tls_v1_1 tls_v1_2 tls_v1_3 other_version : ProtocolVersion

unfoldable pub from_rustls : ProtocolVersion → Option Version
from_rustls tls_v1_0 = some tls1_0
from_rustls tls_v1_1 = some tls1_1
from_rustls tls_v1_2 = some tls1_2
from_rustls tls_v1_3 = some tls1_3
from_rustls _ = none

-- `Cert`, the `original` of a certificate.
pub data Certificate : Type 0 where
  der : List ℕ → Certificate
  pem : List ℕ → Certificate

-- What `rustls` and `rustls_pki_types` do with roots, and the values of `rustls` and `native_tls`.
pub record Rustls (Url : Type 0) : Type 1 where
  pub RootCertStore : Type 0
  pub empty : RootCertStore
  pub add : RootCertStore → List ℕ → Result RootCertStore (Source Url)
  -- `pem_reader_iter`: what the sections of a text are read as, `none` for an invalid one.
  pub pem_reader_iter : List ℕ → List (Option (List ℕ))
  pub ClientConfig : Type 0
  pub PrivateKey : Type 0
  -- `native_tls::Identity`.
  pub NativeIdentity : Type 0

module _ {Url : Type 0} (r : Rustls Url) where
  -- `collect` stops at the first error.
  unfoldable pub collect : List (Option (List ℕ)) → Result (List (List ℕ)) (Error Url)
  collect [] = ok []
  collect (none ∷ rest) = err (builder_error (text "invalid certificate encoding"))
  collect (some cert ∷ rest) = elim (collect rest) [ ok certs ↦ ok (cert ∷ certs) | err e ↦ err e ]

  unfoldable pub read_pem_certs : List ℕ → Result (List (List ℕ)) (Error Url)
  unfolding collect
  read_pem_certs reader = collect (r.pem_reader_iter reader)

  -- The loop over the certificates of a text.
  unfoldable pub add_all : r.RootCertStore → List (List ℕ) → Result r.RootCertStore (Error Url)
  add_all store [] = ok store
  add_all store (c ∷ certs) = elim (r.add store c) [
    | err e ↦ err (builder_error e)
    | ok next ↦ add_all next certs
  ]

  -- `Certificate::add_to_rustls`.
  unfoldable pub add_to_rustls : r.RootCertStore → Certificate → Result r.RootCertStore (Error Url)
  unfolding add_all read_pem_certs
  add_to_rustls store (der buf) = elim (r.add store buf) [
    | err e ↦ err (builder_error e)
    | ok next ↦ ok next
  ]
  add_to_rustls store (pem buf) = elim (read_pem_certs buf) [
    | err e ↦ err e
    | ok certs ↦ add_all store certs
  ]

  -- The loop of `rustls_store`.
  unfoldable pub store_from :
      r.RootCertStore → List Certificate → Result r.RootCertStore (Error Url)
  unfolding add_to_rustls
  store_from store [] = ok store
  store_from store (cert ∷ certs) = elim (add_to_rustls store cert) [
    | err e ↦ err e
    | ok next ↦ store_from next certs
  ]

  unfoldable pub rustls_store : List Certificate → Result r.RootCertStore (Error Url)
  unfolding store_from
  rustls_store certs = store_from r.empty certs

  -- What one certificate pushes.
  unfoldable pub ders_of : Certificate → Result (List (List ℕ)) (Error Url)
  unfolding read_pem_certs
  ders_of (der buf) = ok (buf ∷ [])
  ders_of (pem buf) = read_pem_certs buf

  unfoldable pub rustls_der : List Certificate → Result (List (List ℕ)) (Error Url)
  unfolding ders_of
  rustls_der [] = ok []
  rustls_der (cert ∷ certs) = elim (ders_of cert) [
    | err e ↦ err e
    | ok ders ↦ elim (rustls_der certs) [ err e ↦ err e | ok rest ↦ ok (ders ++ rest) ]
  ]

-- `ClientCert`: an identity of either backend.
pub data Identity (Url : Type 0) (r : Rustls Url) : Type 0 where
  pkcs12 : r.NativeIdentity → Identity Url r
  pkcs8 : r.NativeIdentity → Identity Url r
  pem_identity : r.PrivateKey → List (List ℕ) → Identity Url r

abbrev pub incompatible : {Url : Type 0} → Error Url
incompatible = builder_error (text "incompatible TLS identity type")
