-- ===== src/Request.antt =====
-- src/async_impl/request.rs: a request, and the builder that makes it call by call.
pub mod Authority
pub mod Copies
mod Tests
pub mod Builder
use reqwest.Prelude.{ℕ, Bool, true, false, String, Option, none, some, ◌>>=◌, [], Result, ok, err}
use reqwest.Http.{Headers, HeaderValues, Urls}
use reqwest.Config.{Extensions, get, set}
use reqwest.Error.{Error, builder_error, other, end}
use reqwest.Body
use reqwest.Body.{Body, empty}

pub data Version : Type 0 where
  http_09 http_10 http_11 http_2 http_3 : Version

abbrev pub is_http3 : Version → Bool
is_http3 http_3 = true
is_http3 _ = false

pub record Request (h : Headers) (u : Urls) : Type 0 where
  pub method : String
  pub url : u.Url
  pub headers : h.HeaderMap
  pub body : Option Body
  pub version : Version
  pub extensions : Extensions

-- `body.as_ref()` copied, with the early return on a stream.
unfoldable pub copy_body : Option Body → Option (Option Body)
copy_body none = some none
copy_body (some b) = Body.try_clone b >>= λ copy. some (some copy)

abbrev pub body_of : Option Body → Body
body_of none = empty
body_of (some b) = b

module _ {h : Headers} {u : Urls} where
  abbrev pub new : HeaderValues h → String → u.Url → Request h u
  new v method url = record {
    method = method;
    url = url;
    headers = v.empty;
    body = none;
    version = http_11;
    extensions = record { total_timeout = none; others = [] };
  }

  abbrev pub timeout : Request h u → Option ℕ
  timeout req = get req.extensions

  -- A write through `timeout_mut`.
  abbrev pub set_timeout : Option ℕ → Request h u → Request h u
  set_timeout t req = record req { extensions = set req.extensions t }

  -- The writes of `try_clone` behind the copy of the body.
  abbrev pub copy_fields : HeaderValues h → Request h u → Option Body → Request h u
  copy_fields v from body =
      let fresh = new v from.method from.url in
      let timed = set_timeout (timeout from) fresh in
      let headed = record timed { headers = from.headers } in
      let versioned = record headed { version = from.version } in
      let extended = record versioned { extensions = from.extensions } in
      record extended { body = body }

  unfoldable pub try_clone : HeaderValues h → Request h u → Option (Request h u)
  unfolding copy_body
  try_clone v req = copy_body req.body >>= λ body. some (copy_fields v req body)

-- `http::Request<Body>`.
pub record HttpRequest (h : Headers) (Uri : Type 0) : Type 0 where
  pub method : String
  pub uri : Uri
  pub headers : h.HeaderMap
  pub version : Version
  pub extensions : Extensions
  pub body : Body

module _ {h : Headers} (u : Urls) {Uri : Type 0} where
  -- `TryFrom<HttpRequest<T>> for Request`, with the printing of a URI.
  pub from_http : (Uri → String) → HttpRequest h Uri → Result (Request h u) (Error u.Url)
  from_http to_string req = elim (u.parse (to_string req.uri)) [
    | none ↦ err (builder_error (other end))
    | some url ↦ ok (record {
      method = req.method;
      url = url;
      headers = req.headers;
      body = some req.body;
      version = req.version;
      extensions = req.extensions;
    })
  ]

  -- `TryFrom<Request> for HttpRequest<Body>`, with the parsing of a URI.
  pub into_http : (String → Option Uri) → Request h u → Result (HttpRequest h Uri) (Error u.Url)
  into_http parse_uri req = elim (parse_uri (u.as_str req.url)) [
    | none ↦ err (builder_error (other end))
    | some uri ↦ ok (record {
      method = req.method;
      uri = uri;
      headers = req.headers;
      version = req.version;
      extensions = req.extensions;
      body = body_of req.body;
    })
  ]
