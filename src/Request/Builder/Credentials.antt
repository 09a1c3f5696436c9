-- ===== src/Request/Builder/Credentials.antt =====
-- src/async_impl/request.rs, `RequestBuilder::new`: what becomes of the credentials in a URL.
use reqwest.Prelude.{
  ℕ, ◌≡◌, true, String, Option, some, List, [], ◌∷◌, ◌++◌, codes, str_eq, if◌then◌else◌,
}
use reqwest.Http.{Headers, HeaderValues}
use reqwest.Util
use reqwest.Util.{password_text}
use reqwest.Request.{Request}
use reqwest.Request.Authority.{Base64}

-- The value that authorizes a user: the text of basic authentication, marked as sensitive.
abbrev pub Authorizes :
    {h : Headers} {v : HeaderValues h}
    → Base64 h v
    → List ℕ
    → Option (List ℕ)
    → h.HeaderValue
    → Type 0
Authorizes {h} {v} base64 username password value =
    (v.is_sensitive value ≡ true)
    × (text : h.HeaderValue) × (v.from_bytes
          (codes "Basic " ++ base64.encode (username ++ b':' ∷ password_text password))
        ≡ some text)
    × (h.to_str value ≡ h.to_str text)

-- The values under each name once one is appended.
abbrev pub HasMore :
    (h : Headers) (before : h.HeaderMap) (name : String) (value : h.HeaderValue)
    → h.HeaderMap
    → Type 0
HasMore h before name value after =
    (k : String)
    → h.get_all after k
      ≡ (if str_eq name k then h.get_all before k ++ value ∷ [] else h.get_all before k)
