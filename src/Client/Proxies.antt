-- ===== src/Client/Proxies.antt =====
-- src/async_impl/client.rs, `proxy_auth` and `proxy_custom_headers` and their flags.
use reqwest.Prelude.{
  ◌≡◌, refl, sym, ◌∙◌, Bool, true, false, Option, none, some, List, [], ◌∷◌, any, All, Bool-cases,
  inl, inr, arith,
}
use reqwest.Http.{Headers, Urls}
use reqwest.Proxy.{Matchers, http_non_tunnel_basic_auth, http_non_tunnel_custom_headers}
use reqwest.Proxy.Cache.{Built, no_auth, no_headers}
use reqwest.Client.{ClientRef, first, proxy_auth, proxy_custom_headers}

first_silent {ℓ κ} :
    {M : Type ℓ} {A : Type κ} (f : M → Option (Option A)) (flag : M → Bool) (Good : M → Type 0)
    → ((m : M) → Good m → flag m ≡ false → f m ≡ some none)
    → (ms : List M) → All Good ms
    → any flag ms ≡ false
    → first f ms ≡ some none
unfolding first
first_silent f flag Good silent [] good off = refl
first_silent f flag Good silent (m ∷ ms) (g, good) off =
    rw (silent m g (ground arith), first_silent f flag Good silent ms good (ground arith)) refl

module _ {h : Headers} {u : Urls} {x : Matchers h u} where
  -- The client without the flag's short cut.
  abbrev pub always_auth : ClientRef h u x → ClientRef h u x
  always_auth c = record c { proxies_maybe_http_auth = true }

  -- Where the proxies come from the library's constructors and the flag is the one that the
  -- client's builder computes from them, leaving out the search for credentials changes nothing.
  pub proxy_auth-always_auth :
      (c : ClientRef h u x) (dst : x.Uri) (m : h.HeaderMap)
      → All Built c.proxies
      → c.proxies_maybe_http_auth ≡ any (λ p. p.maybe_has_http_auth) c.proxies
      → proxy_auth c dst m ≡ proxy_auth (always_auth c) dst m
  unfolding proxy_auth
  proxy_auth-always_auth c dst m built flag = elim (Bool-cases c.proxies_maybe_http_auth) [
    | inl on ↦ rw on refl
    | inr off ↦
        let silent =
          first_silent (λ p. http_non_tunnel_basic_auth p dst) (λ p. p.maybe_has_http_auth) Built
            (λ p good. no_auth p dst good) c.proxies built (sym flag ∙ off) in
        rw (off, silent) (ground arith)
  ]

  abbrev pub always_custom : ClientRef h u x → ClientRef h u x
  always_custom c = record c { proxies_maybe_http_custom_headers = true }

  -- The same for the search for custom headers.
  pub proxy_custom_headers-always_custom :
      (c : ClientRef h u x) (dst : x.Uri) (m : h.HeaderMap)
      → All Built c.proxies
      → c.proxies_maybe_http_custom_headers ≡ any (λ p. p.maybe_has_http_custom_headers) c.proxies
      → proxy_custom_headers c dst m ≡ proxy_custom_headers (always_custom c) dst m
  unfolding proxy_custom_headers
  proxy_custom_headers-always_custom c dst m built flag =
      elim (Bool-cases c.proxies_maybe_http_custom_headers) [
        | inl on ↦ rw on refl
        | inr off ↦
            let silent =
              first_silent (λ p. http_non_tunnel_custom_headers p dst)
                (λ p. p.maybe_has_http_custom_headers) Built (λ p good. no_headers p dst good)
                c.proxies built (sym flag ∙ off) in
            rw (off, silent) (ground arith)
      ]
