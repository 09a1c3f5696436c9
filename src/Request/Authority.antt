-- ===== src/Request/Authority.antt =====
-- src/async_impl/request.rs, `extract_authority`: the credentials of a URL.
use reqwest.Prelude.{
  ℕ, ◌≡◌, Bool, true, false, not, ◌||◌, String, Option, none, some, ◌>>=◌, List, [], ◌∷◌, ◌++◌,
  codes, is_some, if◌then◌else◌,
}
use reqwest.Http.{Headers, HeaderValues, Urls}

-- The crate `base64`, of which the code relies on its output being a header value.
pub record Base64 (h : Headers) (v : HeaderValues h) : Type 0 where
  pub encode : List ℕ → List ℕ
  pub encode_valid :
      (bytes : List ℕ)
      → (value : h.HeaderValue) × (v.from_bytes (codes "Basic " ++ encode bytes) ≡ some value)

abbrev pub is_empty {ℓ} : {A : Type ℓ} → List A → Bool
is_empty [] = true
is_empty (x ∷ xs) = false

-- `extract_authority`, with the decoding of percent escapes: the URL that it leaves, and the
-- credentials.
unfoldable pub extract_authority :
    (u : Urls) (decode : String → Option (List ℕ))
    → u.Url
    → u.Url × Option (List ℕ × Option (List ℕ))
extract_authority u decode url =
    if not (u.has_authority url) then (url, none) else elim (decode (u.username url)) [
      | none ↦ (url, none)
      | some username ↦
          let password = u.password url >>= decode in
          if not (is_empty username) || is_some password
          then (u.set_password (u.set_username url "") none, some (username, password))
          else (url, none)
    ]
