-- ===== src/Request/Builder/Bodies.antt =====
-- src/async_impl/request.rs: the calls that set a body with its headers.
use reqwest.Prelude.{
  ℕ, ◌^◌, ◌<◌, ◌≡◌, refl, ◌∙◌, ap, Bool, String, some, List, ◌++◌, length, codes, ok, All,
}
use reqwest.Http.{Headers, HeaderValues, Urls}
use reqwest.Body.{Body}
use reqwest.Body.Frames.{frames_of, chunks}
use reqwest.Multipart.{FormParts, stream, into_stream}
use reqwest.Multipart.Encoding.{Percent}
use reqwest.Multipart.Sent.{chunks-stream, into_stream-cached}
use reqwest.Multipart.Length.{bytes, IsHonest, headers_of, compute_length-into_stream}
use reqwest.Request.{Request}
use reqwest.Request.Builder.{from_parts, header_sensitive, header, multipart, value_of, with_form}
use reqwest.Request.Builder.Credentials.{HasMore}

module _ {h : Headers} {u : Urls} (v : HeaderValues h) {Client : Type 0} where
  header_value :
      (client : Client) (req : Request h u) (name : String) (text : List ℕ) (x : h.HeaderValue)
      → v.from_bytes text ≡ some x
      → header v (from_parts client req) (ok name) (value_of v u.Url text)
        ≡ from_parts client (record req { headers = v.append req.headers name x })
  unfolding header header_sensitive
  header_value client req name text x e =
      ap (λ r. header v (from_parts client req) (ok name) r) read
    where
      read : value_of v u.Url text ≡ ok x
      read = rw (value_of, e) refl

  -- A form whose parts have known and true lengths, of less than 2 ^ 64 bytes, makes a request with
  -- one `Content-Type` and one `Content-Length` value more, and the body of the request has exactly
  -- as many bytes as that `Content-Length` says.
  pub multipart_lem :
      (percent : Percent) (checks : Bool) (client : Client) (req : Request h u) (form : FormParts)
      (mime : h.HeaderValue)
      → v.from_bytes (codes "multipart/form-data; boundary=" ++ form.boundary) ≡ some mime
      → All IsHonest form.fields
      → length (bytes (into_stream percent form)) < 2 ^ 64
      → (made : Request h u) × (typed : h.HeaderMap) × (multipart v percent checks
            (from_parts client req)
            form
          ≡ some (from_parts client made))
        × HasMore h req.headers "content-type" mime typed
        × (n : ℕ) × HasMore h typed "content-length" (v.from_u64 n) made.headers
        × (sent : Body) × (made.body ≡ some sent)
        × (length (chunks (frames_of sent)) ≡ n)
  unfolding multipart header header_sensitive
  multipart_lem percent checks client req form mime valid honest fits =
      let n = length (bytes (into_stream percent form)) in
      let cached = form.computed_headers ++ headers_of percent form form.fields in
      let measured = record form { computed_headers = cached } in
      let typed = v.append req.headers "content-type" mime in
      let sent = stream percent measured in
      (
        record req { headers = v.append typed "content-length" (v.from_u64 n); body = some sent },
        typed,
        rw (multipart, compute_length-into_stream percent form checks honest fits)
            (ap (λ b. some (with_form v b (some n) sent))
              (header_value client req "content-type"
                (codes "multipart/form-data; boundary=" ++ form.boundary) mime valid)),
        λ k. v.get_all-append _ _ _ _,
        n,
        λ k. v.get_all-append _ _ _ _,
        sent,
        refl,
        ap length
            (chunks-stream percent measured ∙ ap bytes (into_stream-cached percent form cached)),
      )
