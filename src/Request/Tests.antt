-- ===== src/Request/Tests.antt =====
-- The theorems on requests and their builder at concrete values.
use reqwest.Prelude.{
  ℕ, ◌≡◌, refl, true, false, String, Option, some, List, [], ◌∷◌, codes, length, ok, err, arith,
}
use reqwest.Http.Plain.{plain_urls, PlainUrl, site}
use reqwest.Http.Marked.{Marked, plain, marked_headers, marked_values}
use reqwest.Error.{builder_error, other, end}
use reqwest.Body.{Body, reusable, content_length}
use reqwest.Body.Frames.{frames_of, chunks}
use reqwest.Multipart
use reqwest.Multipart.{FormParts, into_stream, value_len}
use reqwest.Multipart.Encoding.{encode_headers}
use reqwest.Multipart.Plain.{plain_percent}
use reqwest.Request
use reqwest.Request.{Request, try_clone, HttpRequest, from_http, into_http, body_of, http_11}
use reqwest.Request.Authority.{Base64}
use reqwest.Request.Builder.{RequestBuilder, from_parts, multipart}
use reqwest.Request.Builder
use reqwest.Request.Builder.Bodies.{multipart_lem}
use reqwest.Request.Builder.Calls
use reqwest.Request.Builder.Calls.{Call, run-error}
use reqwest.Request.Builder.Credentials.{HasMore}

abbrev base64 : Base64 marked_headers marked_values
base64 = record { encode = λ bytes. bytes; encode_valid = λ bytes. (_, refl) }

abbrev client : String
client = "client"

abbrev decode : String → Option (List ℕ)
decode s = some (codes s)

abbrev url : PlainUrl
url = record (site "https" "a.test") { username = "me"; password = some "word" }

abbrev request : Request marked_headers plain_urls
request = Request.new marked_values "GET" url

abbrev failed : RequestBuilder marked_headers plain_urls String
failed = record { client = client; request = err (builder_error (other end)) }

abbrev calls : List (Call marked_headers plain_urls)
calls =
    Calls.body (reusable (codes "x"))
    ∷ Calls.bearer_auth (codes "token")
    ∷ Calls.json (ok (codes "{}"))
    ∷ []

abbrev started : RequestBuilder marked_headers plain_urls String
started = from_parts client request

abbrev built : RequestBuilder marked_headers plain_urls String
built = from_parts client (record request {
  headers =
      ("content-type", plain "application/json")
      ∷ ("authorization", (codes "Bearer token", true))
      ∷ [];
  body = some (reusable (codes "{}"));
})

abbrev form : FormParts
form = Multipart.text (Multipart.new (codes "xy")) (codes "key") (codes "value")

multipart_lem_example :
    (made : Request marked_headers plain_urls) × (typed : List (String × Marked)) × (multipart
        marked_values plain_percent true started form
      ≡ some (from_parts client made))
    × HasMore marked_headers [] "content-type" (plain "multipart/form-data; boundary=xy") typed
    × (n : ℕ) × HasMore marked_headers typed "content-length" (n ∷ [], false) made.headers
    × (sent : Body) × (made.body ≡ some sent)
    × (length (chunks (frames_of sent)) ≡ n)
unfolding Multipart.text Multipart.new value_len content_length into_stream encode_headers
multipart_lem_example =
    multipart_lem marked_values plain_percent true client request form
      (plain "multipart/form-data; boundary=xy") refl (refl, tt) (omega arith)
