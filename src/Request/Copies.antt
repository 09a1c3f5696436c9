-- ===== src/Request/Copies.antt =====
-- src/async_impl/request.rs: copies of a request, and the way to the crate `http` and back.
use reqwest.Prelude.{◌≡◌, refl, Bool, true, false, String, Option, none, some, if◌then◌else◌, ok}
use reqwest.Http.{Headers, HeaderValues, Urls}
use reqwest.Body
use reqwest.Body.{Body, reusable, streaming}
use reqwest.Request.{Request, copy_body, try_clone, body_of, HttpRequest, from_http, into_http}

abbrev pub is_streaming : Option Body → Bool
is_streaming (some (streaming s)) = true
is_streaming _ = false

module _ {h : Headers} {u : Urls} where
  -- A request is copied unless its body is a stream, and then the copy is the request in every part,
  -- its timeout and its other extensions included.
  pub try_clone_lem :
      (v : HeaderValues h) (req : Request h u)
      → try_clone v req ≡ (if is_streaming req.body then none else some req)
  unfolding try_clone copy_body Body.try_clone
  try_clone_lem v req = go req.body refl
    where
      go :
          (body : Option Body)
          → req.body ≡ body
          → try_clone v req ≡ (if is_streaming body then none else some req)
      go none e = rw (e, try_clone) refl
      go (some (reusable bytes)) e = rw (e, try_clone) refl
      go (some (streaming s)) e = rw (e, try_clone) refl

  -- A request that is turned into one of the crate `http` and back is the same request, except that
  -- a missing body is an empty one: this holds when the URL's text is a URI that prints as a text
  -- that parses to the URL again.
  pub from_http-into_http :
      {Uri : Type 0} (parse_uri : String → Option Uri) (to_string : Uri → String)
      (req : Request h u) (uri : Uri)
      → parse_uri (u.as_str req.url) ≡ some uri
      → u.parse (to_string uri) ≡ some req.url
      → (there : HttpRequest h Uri) × (into_http u parse_uri req ≡ ok there)
        × (from_http u to_string there ≡ ok (record req { body = some (body_of req.body) }))
  unfolding from_http into_http
  from_http-into_http parse_uri to_string req uri e e' = (
    record {
      method = req.method;
      uri = uri;
      headers = req.headers;
      version = req.version;
      extensions = req.extensions;
      body = body_of req.body;
    },
    rw (into_http, e) refl,
    rw (from_http, e') refl,
  )
