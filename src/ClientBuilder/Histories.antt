-- ===== src/ClientBuilder/Histories.antt =====
-- src/async_impl/client.rs: the proxies that a sequence of calls leaves.
use reqwest.Prelude.{
  ◌≡◌, refl, sym, ap, ◌∙◌, Bool, true, false, not, ◌&&◌, ◌||◌, List, [], ◌∷◌, ◌++◌, any,
  append_assoc, append-nil, if◌then◌else◌, Bool-cases, inl, inr, ok, err, Result-cases, arith,
}
use reqwest.Http.{Headers, HeaderValues, Urls}
use reqwest.Proxy.{Matchers, Matcher, into_matcher, system}
use reqwest.Tls.{Rustls}
use reqwest.IntoUrl.{into_url}
use reqwest.ClientBuilder.{ClientBuilder, Kept, TlsBackend, new}
use reqwest.ClientBuilder.Options
use reqwest.ClientBuilder.TlsOptions
use reqwest.ClientBuilder.TlsOptions.{tls_connector, client_config, unrecognized}
use reqwest.ClientBuilder.Calls.{Call, apply, run}
use reqwest.ClientBuilder.Backends.{NativeTls, Libraries}
use reqwest.ClientBuilder.Build.Inversion.{build-finished}
use reqwest.ClientBuilder.Build.{Client, all_proxies, finished, build}

and_false : (b : Bool) → (b && false) ≡ false
and_false b = ground arith

or_false : (b : Bool) → (b || false) ≡ b
or_false b = ground arith

order :
    (wants settled asked settling was : Bool)
    → (wants || not settled && (asked || not settling && was))
      ≡ (wants || asked && not settled || not (settling || settled) && was)
order wants settled asked settling was = ground arith

module _ {h : Headers} {u : Urls} {x : Matchers h u} {k : Kept} {r : Rustls u.Url} where
  abbrev pub clears : Call h u x k r → Bool
  clears Call.no_proxy = true
  clears _ = false

  -- A call after which the environment is not asked.
  abbrev pub settles : Call h u x k r → Bool
  settles Call.no_proxy = true
  settles (Call.proxy p) = true
  settles _ = false

  abbrev pub asks : Call h u x k r → Bool
  asks Call.env_config_proxy = true
  asks _ = false

  abbrev pub own : Call h u x k r → List (Matcher h u x)
  own (Call.proxy p) = into_matcher p ∷ []
  own _ = []

  -- The proxies that are given after the last call of `no_proxy`, in order.
  pub chosen : List (Call h u x k r) → List (Matcher h u x)
  chosen [] = []
  chosen (call ∷ calls) =
      let rest = chosen calls in if any clears calls then rest else own call ++ rest

  -- Whether the environment is asked after the last call that settles the proxies.
  pub wants_env : List (Call h u x k r) → Bool
  wants_env [] = false
  wants_env (call ∷ calls) = wants_env calls || asks call && not (any settles calls)

  apply-proxies :
      (b : ClientBuilder h u x k r) (call : Call h u x k r)
      → (apply b call).proxies ≡ (if clears call then [] else b.proxies ++ own call)
  unfolding apply Options.base_url Options.user_agent Options.cookie_store
      TlsOptions.tls_backend_preconfigured
  apply-proxies b Call.no_proxy = refl
  apply-proxies b (Call.proxy p) = refl
  apply-proxies b (Call.base_url given) = elim (Result-cases (into_url u given)) [
    | inl (url, a) ↦ rw (Options.base_url, a) (sym (append-nil b.proxies))
    | inr (e, a) ↦ rw (Options.base_url, a) (sym (append-nil b.proxies))
  ]
  apply-proxies b (Call.user_agent (ok value)) = sym (append-nil b.proxies)
  apply-proxies b (Call.user_agent (err e)) = sym (append-nil b.proxies)
  apply-proxies b (Call.cookie_store true) = sym (append-nil b.proxies)
  apply-proxies b (Call.cookie_store false) = sym (append-nil b.proxies)
  apply-proxies b (Call.tls_backend_preconfigured (tls_connector conn)) = sym (append-nil b.proxies)
  apply-proxies b (Call.tls_backend_preconfigured (client_config conn)) = sym (append-nil b.proxies)
  apply-proxies b (Call.tls_backend_preconfigured unrecognized) = sym (append-nil b.proxies)
  apply-proxies b _ = sym (append-nil b.proxies)

  apply-auto_env_proxy :
      (b : ClientBuilder h u x k r) (call : Call h u x k r)
      → (apply b call).auto_env_proxy ≡ (asks call || not (settles call) && b.auto_env_proxy)
  unfolding apply Options.base_url Options.user_agent Options.cookie_store
      TlsOptions.tls_backend_preconfigured
  apply-auto_env_proxy b Call.no_proxy = refl
  apply-auto_env_proxy b (Call.proxy p) = refl
  apply-auto_env_proxy b (Call.base_url given) = elim (Result-cases (into_url u given)) [
    | inl (url, a) ↦ rw (Options.base_url, a) refl
    | inr (e, a) ↦ rw (Options.base_url, a) refl
  ]
  apply-auto_env_proxy b (Call.user_agent (ok value)) = refl
  apply-auto_env_proxy b (Call.user_agent (err e)) = refl
  apply-auto_env_proxy b (Call.cookie_store true) = refl
  apply-auto_env_proxy b (Call.cookie_store false) = refl
  apply-auto_env_proxy b (Call.tls_backend_preconfigured (tls_connector conn)) = refl
  apply-auto_env_proxy b (Call.tls_backend_preconfigured (client_config conn)) = refl
  apply-auto_env_proxy b (Call.tls_backend_preconfigured unrecognized) = refl
  apply-auto_env_proxy b _ = refl

  own-clears : (call : Call h u x k r) → clears call ≡ true → own call ≡ []
  own-clears Call.no_proxy e = refl
  own-clears (Call.proxy p) e = cc
  own-clears _ e = refl

  run-proxies :
      (b : ClientBuilder h u x k r) (calls : List (Call h u x k r))
      → (run b calls).proxies ≡ (if any clears calls then [] else b.proxies) ++ chosen calls
  unfolding run chosen
  run-proxies b [] = sym (append-nil b.proxies)
  run-proxies b (call ∷ calls) =
      let later = run-proxies (apply b call) calls in
      elim (Bool-cases (any clears calls)) [
        | inl on ↦ elim (Bool-cases (clears call)) [
          | inl clear ↦ rw (later, on, clear) refl
          | inr other ↦ rw (later, on, other) refl
        ]
        | inr off ↦ elim (Bool-cases (clears call)) [
          | inl clear ↦
              rw (later, off, clear, apply-proxies b call, clear, own-clears call clear) refl
          | inr other ↦
              rw (later, off, other, apply-proxies b call, other)
                (append_assoc b.proxies (own call) (chosen calls))
        ]
      ]

  run-auto_env_proxy :
      (b : ClientBuilder h u x k r) (calls : List (Call h u x k r))
      → (run b calls).auto_env_proxy
        ≡ (wants_env calls || not (any settles calls) && b.auto_env_proxy)
  unfolding run wants_env
  run-auto_env_proxy b [] = refl
  run-auto_env_proxy b (call ∷ calls) =
      run-auto_env_proxy (apply b call) calls
      ∙ rw (apply-auto_env_proxy b call)
          (order (wants_env calls) (any settles calls) (asks call) (settles call) b.auto_env_proxy)

  -- From a builder without proxies.
  run-all_proxies :
      (b : ClientBuilder h u x k r) (calls : List (Call h u x k r))
      → b.proxies ≡ []
      → b.auto_env_proxy ≡ false
      → all_proxies (run b calls) ≡ chosen calls ++ (if wants_env calls then system ∷ [] else [])
  unfolding all_proxies
  run-all_proxies b calls empty off =
      rw (run-proxies b calls, run-auto_env_proxy b calls, empty, off)
        (elim (Bool-cases (any clears calls)) [
          | inl a ↦ rw (a, and_false (not (any settles calls)), or_false (wants_env calls)) refl
          | inr a ↦ rw (a, and_false (not (any settles calls)), or_false (wants_env calls)) refl
        ])

module _ {h : Headers} {u : Urls} {x : Matchers h u} {k : Kept} {r : Rustls u.Url}
    (l : Libraries (NativeTls u.Url r) u.Url r) where
  -- The proxies of a client that is built from a new builder by any calls are those given after the
  -- last `no_proxy`, in order, and after them that of the environment if it was asked for after the
  -- last call that adds or clears proxies.
  pub build-proxies :
      (v : HeaderValues h) (any_type agent : h.HeaderValue) (backend : TlsBackend k u.Url r)
      (calls : List (Call h u x k r)) (client : Client h u x k r)
      → build l (run (new v any_type agent backend) calls) ≡ ok client
      → client.inner.proxies ≡ chosen calls ++ (if wants_env calls then system ∷ [] else [])
  unfolding finished all_proxies new
  build-proxies v any_type agent backend calls client built =
      let start = new v any_type agent backend in
      let (tls, found, same) = build-finished l (run start calls) client built in
      ap (λ c. c.inner.proxies) same ∙ run-all_proxies start calls refl refl
