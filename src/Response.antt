-- ===== src/Response.antt =====
-- src/async_impl/response.rs: a response, its body read whole or piece by piece, and its status.
-- A body is the list of what its polls will yield. A text is a list of bytes.
pub mod Reading
pub mod Status
pub mod Conversion
mod Tests
use reqwest.Prelude.{
  get_or, ℕ, ◌+◌, Bool, ◌||◌, ◌&&◌, String, Option, none, some, ◌>>=◌, List, [], ◌∷◌, ◌++◌, leb,
  ltb, if◌then◌else◌, Result, ok, err,
}
use reqwest.Http.{Headers, Urls}
use reqwest.Error.{Error, Source, with_url, decode_error, body_error, status_code, boxed}
use reqwest.Body.{Frame, chunk, trailers}
use reqwest.Config.{or_else}
use reqwest.Request.{Version}

-- `http::Response`, with the two extensions that the code looks for.
pub record HttpResponse (h : Headers) (u : Urls) : Type 0 where
  pub status : ℕ
  pub version : Version
  pub headers : h.HeaderMap
  pub reason : Option (List ℕ)
  pub response_url : Option u.Url
  pub frames : List (Result Frame (Source u.Url))
  pub exact : Option ℕ

pub record Response (h : Headers) (u : Urls) : Type 0 where
  pub res : HttpResponse h u
  pub url : u.Url

-- The crates `mime` and `encoding_rs`.
pub record Charsets : Type 1 where
  pub Mime : Type 0
  pub parse_mime : List ℕ → Option Mime
  pub charset : Mime → Option String
  pub Encoding : Type 0
  pub utf_8 : Encoding
  pub for_label : String → Option Encoding
  pub decode : Encoding → List ℕ → String

abbrev pub prepend {ℓ} : {E : Type ℓ} → List ℕ → Result (List ℕ) E → Result (List ℕ) E
prepend bytes (ok rest) = ok (bytes ++ rest)
prepend bytes (err e) = err e

-- `BodyExt::collect`: the data of all frames, or the first error.
unfoldable pub collect {ℓ} : {E : Type ℓ} → List (Result Frame E) → Result (List ℕ) E
collect [] = ok []
collect (err e ∷ frames) = err e
collect (ok (chunk bytes) ∷ frames) = prepend bytes (collect frames)
collect (ok trailers ∷ frames) = collect frames

abbrev pub is_client_error : ℕ → Bool
is_client_error status = leb 400 status && ltb status 500

abbrev pub is_server_error : ℕ → Bool
is_server_error status = leb 500 status && ltb status 600

module _ {Url : Type 0} where
  -- The loop of `chunk`, which passes over trailers.
  unfoldable pub next_chunk :
      List (Result Frame (Source Url))
      → List (Result Frame (Source Url)) × Result (Option (List ℕ)) (Error Url)
  next_chunk [] = ([], ok none)
  next_chunk (err e ∷ frames) = (frames, err (decode_error e))
  next_chunk (ok (chunk bytes) ∷ frames) = (frames, ok (some bytes))
  next_chunk (ok trailers ∷ frames) = next_chunk frames

  -- The errors of a wrapped body are body errors.
  abbrev pub wrap : List (Result Frame (Source Url)) → List (Result Frame (Source Url))
  wrap [] = []
  wrap (ok f ∷ frames) = ok f ∷ wrap frames
  wrap (err e ∷ frames) = err (boxed (body_error e)) ∷ wrap frames

module _ {h : Headers} {u : Urls} where
  abbrev pub content_length : Response h u → Option ℕ
  content_length r = r.res.exact

  -- `Response::chunk`.
  unfoldable pub read_chunk : Response h u → Response h u × Result (Option (List ℕ)) (Error u.Url)
  unfolding next_chunk
  read_chunk r =
      let (rest, answer) = next_chunk r.res.frames in
      (record r { res = record r.res { frames = rest } }, answer)

  unfoldable pub do_bytes : Response h u → Result (List ℕ × u.Url) (Error u.Url)
  unfolding collect with_url
  do_bytes r = elim (collect r.res.frames) [
    | ok full ↦ ok (full, r.url)
    | err e ↦ err (with_url (decode_error e) r.url)
  ]

  unfoldable pub bytes : Response h u → Result (List ℕ) (Error u.Url)
  unfolding do_bytes
  bytes r = elim (do_bytes r) [ ok (full, url) ↦ ok full | err e ↦ err e ]

  -- The encoding that a response is read with.
  unfoldable pub encoding_of : (c : Charsets) → Response h u → String → c.Encoding
  encoding_of c r default_encoding =
      let content_type = h.get r.res.headers "content-type" >>= h.to_str >>= c.parse_mime in
      let name = get_or default_encoding (content_type >>= c.charset) in
      get_or c.utf_8 (c.for_label name)

  unfoldable pub text_with_charset : Charsets → Response h u → String → Result String (Error u.Url)
  unfolding bytes encoding_of
  text_with_charset c r default_encoding = elim (bytes r) [
    | ok full ↦ ok (c.decode (encoding_of c r default_encoding) full)
    | err e ↦ err e
  ]

  -- `text`, with the feature `charset`.
  pub text : Charsets → Response h u → Result String (Error u.Url)
  unfolding text_with_charset
  text c r = text_with_charset c r "utf-8"

  -- `json`, with the parser of `serde_json`.
  unfoldable pub json :
      {T : Type 0} → (List ℕ → Result T (Source u.Url)) → Response h u → Result T (Error u.Url)
  unfolding do_bytes with_url
  json from_slice r = elim (do_bytes r) [
    | err e ↦ err e
    | ok (full, url) ↦ elim (from_slice full) [
      | ok value ↦ ok value
      | err e ↦ err (with_url (decode_error e) url)
    ]
  ]

  unfoldable pub error_for_status : Response h u → Result (Response h u) (Error u.Url)
  error_for_status r =
      if is_client_error r.res.status || is_server_error r.res.status
      then err (status_code r.url r.res.status r.res.reason)
      else ok r

  -- `From<http::Response<T>>`; `none` is the panic of `unwrap`.
  unfoldable pub from_http : HttpResponse h u → Option (Response h u)
  from_http res =
      let rest = record res { response_url = none } in
      elim res.response_url [
        | some url ↦ some (record { res = rest; url = url })
        | none ↦ u.parse "http://no.url.provided.local" >>= λ url.
            some (record { res = rest; url = url })
      ]

  -- `From<Response> for http::Response<Body>`.
  unfoldable pub into_http : Response h u → HttpResponse h u
  into_http r = record r.res { frames = wrap r.res.frames }
