-- ===== src/Redirect/Tower/Requests.antt =====
-- src/redirect.rs, `TowerRedirectPolicy::on_request`: what the next request of a chain carries.
use reqwest.Prelude.{
  ℕ, ◌≡◌, ◌≢◌, ◌∙◌, false, ◌&&◌, String, none, some, ◌>>=◌, [], last, str_eq, eq_iff, if◌then◌else◌,
  arith, Bool-cases, Option-cases, inl, inr,
}
use reqwest.Http.{Headers, Urls}
use reqwest.Redirect.Policy.{remove_sensitive_headers, make_referer}
use reqwest.Redirect.Policy.Sensitive.{
  is_sensitive, leaves_origin, get_all-remove_sensitive_headers,
}
use reqwest.Redirect.Tower.{Tower, Request, carry_deadline, add_referer, next_headers, on_request}

module _ (h : Headers) (u : Urls) where
  get_all-add_referer :
      (p : Tower u.Url) (next : u.Url) (m : h.HeaderMap) (k : String)
      → k ≢ "referer"
      → h.get_all (add_referer h u p next m) k ≡ h.get_all m k
  unfolding add_referer
  get_all-add_referer p next m k differs = elim (Bool-cases p.referer) [
    | inr off ↦ rw off
    | inl on ↦ elim (Option-cases (last p.urls >>= make_referer h u next)) [
      | inl silent ↦ rw (on, silent)
      | inr (v, shown) ↦
          rw (on, shown, h.get_all-insert)
            (let other : str_eq "referer" k ≡ false = ground (arith, eq_iff "referer" k, differs) in
              rw other)
    ]
  ]

  get_all-next_headers :
      (p : Tower u.Url) (uri : String) (m : h.HeaderMap) (next : u.Url) (k : String)
      → u.parse uri ≡ some next
      → k ≢ "referer"
      → h.get_all (next_headers h u p uri m) k
        ≡ (if leaves_origin u next (last p.urls) && is_sensitive k then [] else h.get_all m k)
  unfolding next_headers
  get_all-next_headers p uri m next k parsed differs =
      rw (parsed, next_headers)
        (get_all-add_referer p next (remove_sensitive_headers h u m next p.urls) k differs
          ∙ get_all-remove_sensitive_headers h u m next p.urls k)

  -- A request whose URI parses as a URL keeps, in the next hop of a chain, the values of each
  -- header but `Referer`, except that a redirect to another origin takes the sensitive ones away.
  pub get_all-on_request :
      (p : Tower u.Url) (req : Request h u) (next : u.Url) (k : String)
      → u.parse req.uri ≡ some next
      → k ≢ "referer"
      → h.get_all (on_request h u p req).1.headers k ≡ (
          if leaves_origin u next (last p.urls) && is_sensitive k
          then []
          else h.get_all req.headers k)
  unfolding on_request
  get_all-on_request p req next k parsed differs = elim (Option-cases req.deadline) [
    | inl off ↦
        rw (off, carry_deadline) (get_all-next_headers p req.uri req.headers next k parsed differs)
    | inr (at, on) ↦
        rw (on, carry_deadline)
          (get_all-next_headers (record p { deadline = some at }) req.uri req.headers next k parsed
            differs)
  ]

  -- The deadline of a request is remembered, and set on the next request of the chain if that has
  -- none.
  pub deadline-on_request :
      (p : Tower u.Url) (first second : Request h u) (at : ℕ)
      → first.deadline ≡ some at
      → second.deadline ≡ none
      → let later = on_request h u (on_request h u p first).0 second in
        (later.1.deadline ≡ some at) × (later.0.deadline ≡ some at)
  unfolding on_request
  deadline-on_request p first second at e e' = ground arith
