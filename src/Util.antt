-- ===== src/Util.antt =====
-- src/util.rs: the header of basic authentication, the merge of header maps, and printing of bytes.
pub mod Merge
pub mod Escape
mod Tests
use mathlib.Core.Option
use reqwest.Prelude.{ℕ, true, String, Option, none, some, ◌>>=◌, List, [], ◌∷◌, ◌++◌, codes}
use reqwest.Http.{Headers, HeaderValues, Urls}

-- The password behind its colon, if there is one.
abbrev pub password_text : Option (List ℕ) → List ℕ
password_text none = []
password_text (some password) = password

module _ {h : Headers} (v : HeaderValues h) where
  -- With the crate `base64` as a function; `none` is the panic of `expect`.
  unfoldable pub basic_auth : (List ℕ → List ℕ) → List ℕ → Option (List ℕ) → Option h.HeaderValue
  basic_auth base64 username password =
      v.from_bytes (codes "Basic " ++ base64 (username ++ b':' ∷ password_text password))
      >>= λ header. some (v.set_sensitive header true)

  -- `IntoIter` of a header map: a name comes with its first value only.
  abbrev pub unnamed : List h.HeaderValue → List (Option String × h.HeaderValue)
  unnamed [] = []
  unnamed (x ∷ xs) = (none, x) ∷ unnamed xs

  abbrev pub into_iter :
      List (String × h.HeaderValue × List h.HeaderValue) → List (Option String × h.HeaderValue)
  into_iter [] = []
  into_iter ((name, x, xs) ∷ groups) = (some name, x) ∷ (unnamed xs ++ into_iter groups)

  -- The loop of `replace_headers`, with the name of `prev_entry`; `none` is the panic of
  -- `unreachable!`. An entry, occupied or vacant, is replaced by the one value.
  unfoldable pub replace :
      h.HeaderMap → Option String → List (Option String × h.HeaderValue) → Option h.HeaderMap
  replace dst prev [] = some dst
  replace dst prev ((some key, value) ∷ rest) = replace (h.insert dst key value) (some key) rest
  replace dst none ((none, value) ∷ rest) = none
  replace dst (some key) ((none, value) ∷ rest) = replace (v.append dst key value) (some key) rest

  unfoldable pub replace_headers : h.HeaderMap → h.HeaderMap → Option h.HeaderMap
  unfolding replace
  replace_headers dst src = replace dst none (into_iter (v.groups src))

-- With what the cookie store answers for the URL.
abbrev pub add_cookie_header :
    (h : Headers) {Url : Type 0} → (Url → Option h.HeaderValue) → h.HeaderMap → Url → h.HeaderMap
add_cookie_header h cookies headers url = elim (cookies url) [
  | none ↦ headers
  | some header ↦ h.insert headers "cookie" header
]
