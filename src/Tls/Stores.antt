-- ===== src/Tls/Stores.antt =====
-- src/tls.rs: the two ways in which given certificates become roots.
use reqwest.Prelude.{
  ℕ, ◌≡◌, refl, sym, ◌∙◌, List, [], ◌∷◌, ◌++◌, Result, ok, err, inl, inr, Result-cases,
}
use reqwest.Error.{Error}
use reqwest.Tls.{
  Certificate, der, pem, Rustls, add_all, add_to_rustls, store_from, rustls_store, ders_of,
  rustls_der, read_pem_certs,
}

module _ {Url : Type 0} (r : Rustls Url) where
  abbrev pub then_all :
      Result r.RootCertStore (Error Url) → List (List ℕ) → Result r.RootCertStore (Error Url)
  then_all (err e) certs = err e
  then_all (ok store) certs = add_all r store certs

  add_all-append :
      (store : r.RootCertStore) (xs ys : List (List ℕ))
      → add_all r store (xs ++ ys) ≡ then_all (add_all r store xs) ys
  unfolding add_all
  add_all-append store [] ys = refl
  add_all-append store (x ∷ xs) ys = elim (Result-cases (r.add store x)) [
    | inr (e, a) ↦ rw (add_all, a) refl
    | inl (next, a) ↦ rw (add_all, a) (add_all-append next xs ys)
  ]

  add_to_rustls-ders_of :
      (store : r.RootCertStore) (cert : Certificate) (ders : List (List ℕ))
      → ders_of r cert ≡ ok ders
      → add_to_rustls r store cert ≡ add_all r store ders
  unfolding add_to_rustls ders_of add_all
  add_to_rustls-ders_of store (der buf) ders e =
      let same : buf ∷ [] ≡ ders = cc in rw (sym same) refl
  add_to_rustls-ders_of store (pem buf) ders e =
      let read : read_pem_certs r buf ≡ ok ders = e in rw (add_to_rustls, read) refl

  store_from-rustls_der :
      (store : r.RootCertStore) (certs : List Certificate) (ders : List (List ℕ))
      → rustls_der r certs ≡ ok ders
      → store_from r store certs ≡ add_all r store ders
  unfolding store_from rustls_der
  store_from-rustls_der store [] ders e = let same : [] ≡ ders = cc in rw (sym same) refl
  store_from-rustls_der store (cert ∷ certs) ders e = elim (Result-cases (ders_of r cert)) [
    | inl (first, a) ↦ elim (Result-cases (rustls_der r certs)) [
      | inl (rest, b) ↦
          let same : ok (first ++ rest) ≡ ok ders = sym (rw (rustls_der, a, b) refl) ∙ e in
          let split : first ++ rest ≡ ders = cc in
          let here = add_to_rustls-ders_of store cert first a in
          rw (sym split, add_all-append store first rest, store_from, here)
            (elim (Result-cases (add_all r store first)) [
              | inr (bad, c) ↦ rw c refl
              | inl (next, c) ↦ rw c (store_from-rustls_der next certs rest b)
            ])
      | inr (bad, b) ↦ let same : err bad ≡ ok ders = sym (rw (rustls_der, a, b) refl) ∙ e in cc
    ]
    | inr (bad, a) ↦ let same : err bad ≡ ok ders = sym (rw (rustls_der, a) refl) ∙ e in cc
  ]

  -- Where the roots are readable, both ways use the same ones: the store that is built is the one
  -- to which everything that is handed to the verifier of the platform was added, in that order, and
  -- where that fails, it fails with the same error.
  pub rustls_store-rustls_der :
      (certs : List Certificate) (ders : List (List ℕ))
      → rustls_der r certs ≡ ok ders
      → rustls_store r certs ≡ add_all r r.empty ders
  unfolding rustls_store
  rustls_store-rustls_der certs ders e = store_from-rustls_der r.empty certs ders e
