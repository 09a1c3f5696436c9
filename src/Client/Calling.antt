-- ===== src/Client/Calling.antt =====
-- src/async_impl/client.rs: `Client::request` and its shortcuts, which start a builder.
-- Of the client only its base URL is read here.
use reqwest.Prelude.{
  ℕ, ◌≡◌, refl, Bool, String, Option, none, some, List, Result, ok, err, All, inl, inr,
}
use reqwest.Http.{Headers, HeaderValues, Urls}
use reqwest.Error.{Error, Kind}
use reqwest.Multipart.Encoding.{Percent}
use reqwest.Request
use reqwest.Request.{Request}
use reqwest.Request.Authority.{Base64}
use reqwest.Request.Builder.{RequestBuilder, new, build}
use reqwest.Request.Builder.Calls.{Call, run, Measured, run-error}
use reqwest.IntoUrl.{Given, into_url_with_base}
use reqwest.IntoUrl.Accepted.{meant, into_url_with_base_lem}

-- `Result::map`.
abbrev pub map_ok {ℓ} : {A B E : Type ℓ} → (A → B) → Result A E → Result B E
map_ok f (ok x) = ok (f x)
map_ok f (err e) = err e

module _ {h : Headers} {u : Urls} {v : HeaderValues h} (base64 : Base64 h v)
    (decode : String → Option (List ℕ)) {Client : Type 0} (base_url : Client → Option String) where
  unfoldable pub request : Client → String → Given u → Option (RequestBuilder h u Client)
  unfolding into_url_with_base new
  request client method given =
      new v base64 decode client
        (map_ok (Request.new v method) (into_url_with_base u given (base_url client)))

  abbrev pub get : Client → Given u → Option (RequestBuilder h u Client)
  unfolding request
  get client given = request client "GET" given

  abbrev pub post : Client → Given u → Option (RequestBuilder h u Client)
  unfolding request
  post client given = request client "POST" given

  abbrev pub put : Client → Given u → Option (RequestBuilder h u Client)
  unfolding request
  put client given = request client "PUT" given

  abbrev pub patch : Client → Given u → Option (RequestBuilder h u Client)
  unfolding request
  patch client given = request client "PATCH" given

  abbrev pub delete : Client → Given u → Option (RequestBuilder h u Client)
  unfolding request
  delete client given = request client "DELETE" given

  abbrev pub head : Client → Given u → Option (RequestBuilder h u Client)
  unfolding request
  head client given = request client "HEAD" given

  -- A URL that does not parse is reported at the end: the request is started as if it were good,
  -- every further call leaves the error alone, and `build` returns it, an error of the kind `builder`.
  pub request_bad_url :
      (percent : Percent) (checks : Bool) (client : Client) (method : String) (given : Given u)
      (calls : List (Call h u))
      → meant u given (base_url client) ≡ none
      → All (Measured {u = u} base64 percent checks) calls
      → (b : RequestBuilder h u Client) × (e : Error u.Url) × (request client method given ≡ some b)
        × (run base64 percent checks b calls ≡ some b)
        × (build b ≡ err e)
        × (e.kind ≡ Kind.builder)
  unfolding request new
  request_bad_url percent checks client method given calls bad measured =
      elim (into_url_with_base_lem u given (base_url client)) [
        | inl (x, good, has, made) ↦ absurd cc
        | inr (e, why, kind, failed) ↦ (
          record { client = client; request = err e },
          e,
          rw (request, failed) refl,
          run-error base64 percent checks client e calls measured,
          refl,
          kind,
        )
      ]
