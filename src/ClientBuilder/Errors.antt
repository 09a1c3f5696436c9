-- ===== src/ClientBuilder/Errors.antt =====
-- src/async_impl/client.rs: the errors of a builder's calls.
use reqwest.Prelude.{
  ◌≡◌, refl, ap, ◌∙◌, true, false, Option, none, some, List, [], ◌∷◌, Result, ok, err, inl, inr,
  Result-cases, Option-cases, and_then,
}
use reqwest.Http.{Headers, Urls}
use reqwest.Error.{Error, builder_error}
use reqwest.Config.{or_else}
use reqwest.Proxy.{Matchers}
use reqwest.IntoUrl.{into_url}
use reqwest.Tls.{Rustls}
use reqwest.ClientBuilder.{ClientBuilder, Kept}
use reqwest.ClientBuilder.Options
use reqwest.ClientBuilder.TlsOptions
use reqwest.ClientBuilder.TlsOptions.{tls_connector, client_config, unrecognized}
use reqwest.ClientBuilder.Calls.{Call, apply, run}
use reqwest.ClientBuilder.Backends.{NativeTls, Libraries}
use reqwest.ClientBuilder.Build.{unless, tls_with, finished, build}

abbrev pub error_of {ℓ κ} : {A : Type ℓ} {E : Type κ} → Result A E → Option E
error_of (ok a) = none
error_of (err e) = some e

module _ {h : Headers} {u : Urls} {x : Matchers h u} {k : Kept} {r : Rustls u.Url} where
  -- What a call fails with.
  unfoldable pub failure : Call h u x k r → Option (Error u.Url)
  failure (Call.base_url given) = error_of (into_url u given)
  failure (Call.user_agent (err e)) = some (builder_error e)
  failure _ = none

  unfoldable pub last_failure : List (Call h u x k r) → Option (Error u.Url)
  unfolding failure
  last_failure [] = none
  last_failure (call ∷ calls) = or_else (last_failure calls) (failure call)

  apply-failure :
      (b : ClientBuilder h u x k r) (call : Call h u x k r)
      → (apply b call).error ≡ or_else (failure call) b.error
  unfolding apply failure Options.base_url Options.user_agent Options.cookie_store
      TlsOptions.tls_backend_preconfigured
  apply-failure b (Call.base_url given) = elim (Result-cases (into_url u given)) [
    | inl (url, a) ↦ rw (Options.base_url, a) refl
    | inr (e, a) ↦ rw (Options.base_url, a) refl
  ]
  apply-failure b (Call.user_agent (ok value)) = refl
  apply-failure b (Call.user_agent (err e)) = refl
  apply-failure b (Call.cookie_store true) = refl
  apply-failure b (Call.cookie_store false) = refl
  apply-failure b (Call.tls_backend_preconfigured (tls_connector conn)) = refl
  apply-failure b (Call.tls_backend_preconfigured (client_config conn)) = refl
  apply-failure b (Call.tls_backend_preconfigured unrecognized) = refl
  apply-failure b _ = refl

  run-last_failure :
      (b : ClientBuilder h u x k r) (calls : List (Call h u x k r))
      → (run b calls).error ≡ or_else (last_failure calls) b.error
  unfolding run last_failure
  run-last_failure b [] = refl
  run-last_failure b (call ∷ calls) =
      run-last_failure (apply b call) calls
      ∙ rw (apply-failure b call)
          (elim (Option-cases (last_failure calls)) [ inl a ↦ rw a refl | inr (e, a) ↦ rw a refl ])

module _ {h : Headers} {u : Urls} {x : Matchers h u} {k : Kept} {r : Rustls u.Url}
    (l : Libraries (NativeTls u.Url r) u.Url r) where
  -- Where one of a sequence of calls is given a base URL or a user agent that is not valid, building
  -- fails whatever the other calls are, and with the error of the last such call.
  pub build-last_failure :
      (b : ClientBuilder h u x k r) (calls : List (Call h u x k r)) (e : Error u.Url)
      → last_failure calls ≡ some e
      → build l (run b calls) ≡ err e
  unfolding build
  build-last_failure b calls e failed =
      let held : (run b calls).error ≡ some e = run-last_failure b calls ∙ rw failed refl in
      ap
        (λ o. unless o (
          and_then (tls_with l (run b calls).tls (run b calls))
            (λ tls. ok (finished (run b calls) tls))))
        held
