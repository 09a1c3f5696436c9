-- ===== src/Request/Builder/Calls.antt =====
-- src/async_impl/request.rs, `RequestBuilder`: sequences of its calls.
use reqwest.Prelude.{
  ℕ, ◌≡◌, ◌≢◌, refl, Bool, String, Option, none, some, ◌>>=◌, List, [], ◌∷◌, ◌++◌, Result, err, All,
  Option-cases, inl, inr,
}
use reqwest.Http.{Headers, HeaderValues, Urls}
use reqwest.Error.{Error, Source}
use reqwest.Body.{Body}
use reqwest.Util
use reqwest.Util.{password_text}
use reqwest.Multipart
use reqwest.Multipart.{FormParts}
use reqwest.Multipart.Encoding.{Percent}
use reqwest.Request.{Version}
use reqwest.Request.Authority.{Base64}
use reqwest.Request.Builder
use reqwest.Request.Builder.{RequestBuilder, header_sensitive}

-- A method of the builder with its arguments.
pub data Call (h : Headers) (u : Urls) : Type 0 where
  header : Result String (Source u.Url) → Result h.HeaderValue (Source u.Url) → Call h u
  headers : h.HeaderMap → Call h u
  basic_auth : List ℕ → Option (List ℕ) → Call h u
  bearer_auth : List ℕ → Call h u
  body : Body → Call h u
  timeout : ℕ → Call h u
  version : Version → Call h u
  multipart : FormParts → Call h u
  query : (u.Url → u.Url × Option (Source u.Url)) → Call h u
  form : Result (List ℕ) (Source u.Url) → Call h u
  json : Result (List ℕ) (Source u.Url) → Call h u

module _ {h : Headers} {u : Urls} {v : HeaderValues h} (base64 : Base64 h v) (percent : Percent)
    (checks : Bool) where
  unfoldable pub apply :
      {Client : Type 0} → RequestBuilder h u Client → Call h u → Option (RequestBuilder h u Client)
  apply b (header key value) = some (Builder.header v b key value)
  apply b (headers more) = Builder.headers v b more
  apply b (basic_auth username password) = Builder.basic_auth v base64 b username password
  apply b (bearer_auth token) = some (Builder.bearer_auth v b token)
  apply b (body content) = some (Builder.body b content)
  apply b (timeout t) = some (Builder.timeout b t)
  apply b (version n) = some (Builder.version b n)
  apply b (multipart parts) = Builder.multipart v percent checks b parts
  apply b (query serialize) = some (Builder.query b serialize)
  apply b (form content) = Builder.form v b content
  apply b (json content) = Builder.json v b content

  unfoldable pub run :
      {Client : Type 0}
      → RequestBuilder h u Client
      → List (Call h u)
      → Option (RequestBuilder h u Client)
  unfolding apply
  run b [] = some b
  run b (call ∷ calls) = apply b call >>= λ next. run next calls

  -- Measuring a form does not overflow.
  abbrev pub Measured : Call h u → Type 0
  Measured (multipart parts) = Multipart.compute_length percent checks parts ≢ none
  Measured _ = Unit {0}

  apply-error :
      {Client : Type 0} (client : Client) (e : Error u.Url) (call : Call h u)
      → Measured call
      → apply (record { client = client; request = err e }) call
        ≡ some (record { client = client; request = err e })
  unfolding apply Builder.header Builder.headers Builder.basic_auth Builder.bearer_auth
      Builder.multipart Builder.query Builder.form Builder.json header_sensitive Util.basic_auth
  apply-error client e (header key value) m = refl
  apply-error client e (headers more) m = refl
  apply-error client e (basic_auth username password) m =
      let (text, valid) = base64.encode_valid (username ++ b':' ∷ password_text password) in
      rw valid refl
  apply-error client e (bearer_auth token) m = refl
  apply-error client e (body content) m = refl
  apply-error client e (timeout t) m = refl
  apply-error client e (version n) m = refl
  apply-error client e (multipart parts) m =
      elim (Option-cases (Multipart.compute_length percent checks parts)) [
        | inl panic ↦ absurd (m panic)
        | inr ((measured, none), found) ↦ rw found refl
        | inr ((measured, some n), found) ↦ rw found refl
      ]
  apply-error client e (query serialize) m = refl
  apply-error client e (form content) m = refl
  apply-error client e (json content) m = refl

  -- The first error is kept: once a call has failed, whatever calls follow, the builder holds
  -- that error, and `build` returns it. Only a form whose measured length overflows can panic.
  pub run-error :
      {Client : Type 0} (client : Client) (e : Error u.Url) (calls : List (Call h u))
      → All Measured calls
      → run (record { client = client; request = err e }) calls
        ≡ some (record { client = client; request = err e })
  unfolding run
  run-error client e [] m = refl
  run-error client e (call ∷ calls) (m, ms) =
      rw (apply-error client e call m) (run-error client e calls ms)
