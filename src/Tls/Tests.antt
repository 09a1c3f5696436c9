-- ===== src/Tls/Tests.antt =====
-- The theorem on given certificates at concrete ones.
use reqwest.Prelude.{ℕ, ◌≡◌, refl, some, List, [], ◌∷◌, ◌++◌, ok}
use reqwest.Tls.{Certificate, der, pem, Rustls, rustls_store, add_all, rustls_der}
use reqwest.Tls.Stores.{rustls_store-rustls_der}

-- A store is the list of its certificates; a text is one section.
abbrev stored : Rustls (Unit {0})
stored = record {
  RootCertStore = List (List ℕ);
  empty = [];
  add = λ store cert. ok (store ++ cert ∷ []);
  pem_reader_iter = λ text. some text ∷ [];
  ClientConfig = Unit {0};
  PrivateKey = Unit {0};
  NativeIdentity = Unit {0};
}

abbrev given : List Certificate
given = der (1 ∷ []) ∷ pem (2 ∷ []) ∷ []

given_read : rustls_der stored given ≡ ok ((1 ∷ []) ∷ (2 ∷ []) ∷ [])
unfolding rustls_der
given_read = refl

rustls_store-rustls_der_example :
    rustls_store stored given ≡ add_all stored stored.empty ((1 ∷ []) ∷ (2 ∷ []) ∷ [])
rustls_store-rustls_der_example =
    rustls_store-rustls_der stored given ((1 ∷ []) ∷ (2 ∷ []) ∷ []) given_read
