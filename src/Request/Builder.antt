-- ===== src/Request/Builder.antt =====
-- src/async_impl/request.rs, `RequestBuilder`: the calls that a request is built with.
-- A generic argument is the result of its conversion; an error of another crate is `other end`.
-- A text is the list of its UTF-8 bytes. An outer `none` is a panic.
pub mod Credentials
pub mod Calls
pub mod Marks
pub mod Bodies
use reqwest.Prelude.{
  ℕ, Bool, true, false, String, Option, none, some, ◌>>=◌, List, ◌++◌, codes, str_eq, if◌then◌else◌,
  Result, ok, err,
}
use reqwest.Http.{Headers, HeaderValues, Urls}
use reqwest.Error.{Error, Source, builder_error, other, end}
use reqwest.Body.{Body, reusable}
use reqwest.Multipart
use reqwest.Multipart.{FormParts, Chunks}
use reqwest.Multipart.Encoding.{Percent}
use reqwest.Util
use reqwest.Util.{replace_headers}
use reqwest.Request
use reqwest.Request.Authority.{Base64, extract_authority}
use reqwest.Request.{Request, Version, set_timeout}

pub record RequestBuilder (h : Headers) (u : Urls) (Client : Type 0) : Type 0 where
  pub client : Client
  pub request : Result (Request h u) (Error u.Url)

-- `HeaderValue::try_from`, and `Entry::or_insert`.
abbrev pub value_of :
    {h : Headers} → HeaderValues h → (E : Type 0) → List ℕ → Result h.HeaderValue (Source E)
value_of v E bytes = elim (v.from_bytes bytes) [ none ↦ err (other end) | some x ↦ ok x ]

abbrev pub or_insert : (h : Headers) → h.HeaderMap → String → h.HeaderValue → h.HeaderMap
or_insert h m k x = if h.contains_key m k then m else h.insert m k x

module _ {h : Headers} {u : Urls} {Client : Type 0} where
  abbrev pub from_parts : Client → Request h u → RequestBuilder h u Client
  from_parts client request = record { client = client; request = ok request }

  abbrev pub fail : RequestBuilder h u Client → Source u.Url → RequestBuilder h u Client
  fail b e = record b { request = err (builder_error e) }

  -- What most calls do: change the request, if there is one.
  abbrev pub update :
      RequestBuilder h u Client → (Request h u → Request h u) → RequestBuilder h u Client
  update b change = elim b.request [ err e ↦ b | ok req ↦ record b { request = ok (change req) } ]

  abbrev pub body : RequestBuilder h u Client → Body → RequestBuilder h u Client
  body b content = update b (λ req. record req { body = some content })

  abbrev pub timeout : RequestBuilder h u Client → ℕ → RequestBuilder h u Client
  timeout b t = update b (set_timeout (some t))

  abbrev pub version : RequestBuilder h u Client → Version → RequestBuilder h u Client
  version b v = update b (λ req. record req { version = v })

  abbrev pub build : RequestBuilder h u Client → Result (Request h u) (Error u.Url)
  build b = b.request

  abbrev pub build_split : RequestBuilder h u Client → Client × Result (Request h u) (Error u.Url)
  build_split b = (b.client, b.request)

  -- `send`, with the client's `execute_request` and the future of an error.
  abbrev pub send :
      {Pending : Type 0}
      → (Client → Request h u → Pending)
      → (Error u.Url → Pending)
      → RequestBuilder h u Client
      → Pending
  send execute new_err b = elim b.request [ ok req ↦ execute b.client req | err e ↦ new_err e ]

  -- `query`, with what serializing writes to the URL and the error that it ends in, if any.
  unfoldable pub query :
      RequestBuilder h u Client
      → (u.Url → u.Url × Option (Source u.Url))
      → RequestBuilder h u Client
  query b serialize = elim b.request [
    | err e ↦ b
    | ok req ↦
        let (written, error) = serialize req.url in
        let empty_query : Bool = elim (u.query written) [ none ↦ false | some q ↦ str_eq q "" ] in
        let url = if empty_query then u.set_query written none else written in
        elim error [
          | none ↦ record b { request = ok (record req { url = url }) }
          | some e ↦ fail b e
        ]
  ]

  module _ (v : HeaderValues h) where
    unfoldable pub header_sensitive :
        RequestBuilder h u Client
        → Result String (Source u.Url)
        → Result h.HeaderValue (Source u.Url)
        → Bool
        → RequestBuilder h u Client
    header_sensitive b key value sensitive = elim b.request [
      | err e ↦ b
      | ok req ↦ elim key [
        | err e ↦ fail b e
        | ok name ↦ elim value [
          | err e ↦ fail b e
          | ok x ↦ record b {
            request = ok (record req {
              headers = v.append req.headers name (if sensitive then v.set_sensitive x true else x);
            });
          }
        ]
      ]
    ]

    unfoldable pub header :
        RequestBuilder h u Client
        → Result String (Source u.Url)
        → Result h.HeaderValue (Source u.Url)
        → RequestBuilder h u Client
    unfolding header_sensitive
    header b key value = header_sensitive b key value false

    unfoldable pub headers :
        RequestBuilder h u Client → h.HeaderMap → Option (RequestBuilder h u Client)
    unfolding replace_headers
    headers b more = elim b.request [
      | err e ↦ some b
      | ok req ↦ replace_headers v req.headers more >>= λ merged.
          some (record b { request = ok (record req { headers = merged }) })
    ]

    abbrev pub authorize :
        RequestBuilder h u Client → Result h.HeaderValue (Source u.Url) → RequestBuilder h u Client
    authorize b value = header_sensitive b (ok "authorization") value true

    unfoldable pub basic_auth :
        Base64 h v
        → RequestBuilder h u Client
        → List ℕ
        → Option (List ℕ)
        → Option (RequestBuilder h u Client)
    unfolding Util.basic_auth header_sensitive
    basic_auth base64 b username password =
        Util.basic_auth v base64.encode username password >>= λ value. some (authorize b (ok value))

    unfoldable pub bearer_auth : RequestBuilder h u Client → List ℕ → RequestBuilder h u Client
    unfolding header_sensitive
    bearer_auth b token = authorize b (value_of v u.Url (codes "Bearer " ++ token))

    -- The `if let` of `new`, on the URL and the credentials that were taken out of it.
    abbrev pub with_authority :
        Base64 h v
        → Client
        → Request h u
        → u.Url × Option (List ℕ × Option (List ℕ))
        → Option (RequestBuilder h u Client)
    unfolding basic_auth
    with_authority base64 client req (url, auth) =
        let builder = from_parts client (record req { url = url }) in
        elim auth [
          | none ↦ some builder
          | some (username, password) ↦ basic_auth base64 builder username password
        ]

    -- `RequestBuilder::new`.
    unfoldable pub new :
        Base64 h v
        → (String → Option (List ℕ))
        → Client
        → Result (Request h u) (Error u.Url)
        → Option (RequestBuilder h u Client)
    unfolding extract_authority
    new base64 decode client request = elim request [
      | err e ↦ some (record { client = client; request = err e })
      | ok req ↦ with_authority base64 client req (extract_authority u decode req.url)
    ]

    abbrev pub serialized :
        String
        → RequestBuilder h u Client
        → Result (List ℕ) (Source u.Url)
        → Option (RequestBuilder h u Client)
    serialized mime b content = elim b.request [
      | err e ↦ some b
      | ok req ↦ elim content [
        | err e ↦ some (fail b e)
        | ok bytes ↦ h.from_str mime >>= λ x. some (record b {
          request = ok (record req {
            headers = or_insert h req.headers "content-type" x;
            body = some (reusable bytes);
          });
        })
      ]
    ]

    -- `form` and `json`, with the result of serializing.
    unfoldable pub form :
        RequestBuilder h u Client
        → Result (List ℕ) (Source u.Url)
        → Option (RequestBuilder h u Client)
    form b content = serialized "application/x-www-form-urlencoded" b content

    unfoldable pub json :
        RequestBuilder h u Client
        → Result (List ℕ) (Source u.Url)
        → Option (RequestBuilder h u Client)
    json b content = serialized "application/json" b content

    -- The end of `multipart`: the length, where it is known, and the body.
    abbrev pub with_form : RequestBuilder h u Client → Option ℕ → Body → RequestBuilder h u Client
    unfolding header
    with_form typed none content = body typed content
    with_form typed (some n) content =
        body (header typed (ok "content-length") (ok (v.from_u64 n))) content

    -- `multipart`; with `checks`, sums on u64 that overflow panic.
    pub multipart :
        Percent
        → (checks : Bool) → RequestBuilder h u Client
        → FormParts
        → Option (RequestBuilder h u Client)
    unfolding header Multipart.compute_length Multipart.stream
    multipart percent checks b parts =
        let mime = value_of v u.Url (codes "multipart/form-data; boundary=" ++ parts.boundary) in
        let typed = header b (ok "content-type") mime in
        Multipart.compute_length percent checks parts >>= λ (measured, len).
        some (with_form typed len (Multipart.stream percent measured))

    pub try_clone : RequestBuilder h u Client → Option (RequestBuilder h u Client)
    unfolding Request.try_clone
    try_clone b = elim b.request [
      | err e ↦ none
      | ok req ↦ Request.try_clone v req >>= λ copy. some (from_parts b.client copy)
    ]
