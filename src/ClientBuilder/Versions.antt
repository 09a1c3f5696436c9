-- ===== src/ClientBuilder/Versions.antt =====
-- src/async_impl/client.rs: the limits on the versions of TLS over `rustls`.
use reqwest.Prelude.{
  ◌≡◌, ◌≢◌, refl, sym, ◌∙◌, Bool, true, false, some, List, [], ◌∷◌, All, ◌≤◌, inl, inr, Bool-cases,
  Option-cases, ok, leb, arith,
}
use reqwest.Http.{Headers, Urls}
use reqwest.Proxy.{Matchers}
use reqwest.Tls.{Version, rank, ProtocolVersion, from_rustls, Rustls}
use reqwest.ClientBuilder.{ClientBuilder, Kept}
use reqwest.ClientBuilder.Backends.{
  NativeTls, RustlsTls, Libraries, retain, is_from, is_up_to, supported, rustls_tls,
}
use reqwest.ClientBuilder.Build.{Client, with_rustls, build}
use reqwest.ClientBuilder.Build.Inversion.{build-rustls_tls, configured_ok}

-- A version that the code knows, within the limits.
abbrev pub Between : Version → Version → ProtocolVersion → Type 0
Between min max v =
    (version : Version) × (from_rustls v ≡ some version)
    × (rank min ≤ rank version)
    × (rank version ≤ rank max)

retain_holds {ℓ κ} :
    {A : Type ℓ} (P : A → Type κ) (p : A → Bool) (xs : List A)
    → ((x : A) → p x ≡ true → P x)
    → All P (retain p xs)
unfolding retain
retain_holds P p [] holds = tt
retain_holds P p (x ∷ xs) holds = elim (Bool-cases (p x)) [
  | inl kept ↦ rw kept (holds x kept, retain_holds P p xs holds)
  | inr dropped ↦ rw dropped (retain_holds P p xs holds)
]

both {ℓ κ κ'} :
    {A : Type ℓ} (P : A → Type κ) (Q : A → Type κ') (p : A → Bool) (xs : List A)
    → ((x : A) → p x ≡ true → P x → Q x)
    → All P xs
    → All Q (retain p xs)
unfolding retain
both P Q p [] holds all = tt
both P Q p (x ∷ xs) holds (h, all) = elim (Bool-cases (p x)) [
  | inl kept ↦ rw kept (holds x kept h, both P Q p xs holds all)
  | inr dropped ↦ rw dropped (both P Q p xs holds all)
]

is_up_to-Between :
    (min max : Version) (v : ProtocolVersion)
    → is_up_to (some max) v ≡ true
    → is_from (some min) v ≡ true
    → Between min max v
unfolding is_up_to is_from
is_up_to-Between min max v up from = elim (Option-cases (from_rustls v)) [
  | inl a ↦ let never : false ≡ true = sym (rw (is_up_to, a) refl) ∙ up in cc
  | inr (version, a) ↦
      let low : leb (rank min) (rank version) ≡ true = sym (rw (is_from, a) refl) ∙ from in
      let high : leb (rank version) (rank max) ≡ true = sym (rw (is_up_to, a) refl) ∙ up in
      (version, a, ground arith, ground arith)
]

module _ {h : Headers} {u : Urls} {x : Matchers h u} {k : Kept} {r : Rustls u.Url}
    (l : Libraries (NativeTls u.Url r) u.Url r) where
  supported-Between :
      (c : ClientBuilder h u x k r) (min max : Version)
      → c.min_tls_version ≡ some min
      → c.max_tls_version ≡ some max
      → All (Between min max) (supported l c)
  unfolding supported
  supported-Between c min max low high =
      rw (low, high)
        (both (λ v. is_from (some min) v ≡ true) (Between min max) (is_up_to (some max))
          (retain (is_from (some min)) l.all_versions)
          (λ v up from. is_up_to-Between min max v up from)
          (retain_holds (λ v. is_from (some min) v ≡ true) (is_from (some min)) l.all_versions
            (λ v from. from)))

  -- A client over `rustls` with a least and a greatest version of TLS offers at least one version, and
  -- only versions between the two: where none of those that `rustls` supports is, building fails.
  pub build-Between :
      (c : ClientBuilder h u x k r) (client : Client h u x k r) (t : RustlsTls u.Url r)
      (min max : Version)
      → build l c ≡ ok client
      → client.tls ≡ with_rustls t
      → c.min_tls_version ≡ some min
      → c.max_tls_version ≡ some max
      → All (Between min max) t.versions × (t.versions ≢ [])
  unfolding rustls_tls
  build-Between c client t min max built over low high =
      let (same, some_left, verified) =
        configured_ok l (supported l c) c t (build-rustls_tls l c client t built over) in
      (rw same (supported-Between c min max low high), some_left)
