-- ===== src/Request/Builder/Marks.antt =====
-- src/async_impl/request.rs, `RequestBuilder`: the mark of sensitive `Authorization` values.
use reqwest.Prelude.{◌≡◌, Bool, true, false, Option, none, some, Result, ok, err, All, str_eq}
use reqwest.Http.{Headers, HeaderValues, Urls}
use reqwest.Error.{Error}
use reqwest.Util
use reqwest.Util.{password_text, replace_headers}
use reqwest.Body.{Body}
use reqwest.Multipart
use reqwest.Multipart.Encoding.{Percent}
use reqwest.Request.{Request}
use reqwest.Request.Authority.{Base64}
use reqwest.Request.Builder
use reqwest.Request.Builder.{RequestBuilder}
use reqwest.Request.Builder.Calls.{Call, header, headers, apply}

module _ {h : Headers} (v : HeaderValues h) where
  abbrev pub Marked : h.HeaderMap → Type 0
  Marked m = All (λ x. v.is_sensitive x ≡ true) (h.get_all m "authorization")

module _ {h : Headers} {u : Urls} (v : HeaderValues h) where
  -- Every `Authorization` value of the request is marked as sensitive.
  abbrev pub IsMarked : {Client : Type 0} → RequestBuilder h u Client → Type 0
  IsMarked b = elim b.request [ err e ↦ Unit {0} | ok req ↦ Marked v req.headers ]

  -- A call that adds no unmarked `Authorization` value of the caller's own.
  abbrev pub Keeps : Call h u → Type 0
  Keeps (header (ok name) value) = str_eq name "authorization" ≡ false
  Keeps (headers more) = Marked v more
  Keeps _ = Unit {0}

  abbrev Ends : {Client : Type 0} → Option (RequestBuilder h u Client) → Type 0
  Ends none = Unit {0}
  Ends (some b) = IsMarked b

  module _ (base64 : Base64 h v) (percent : Percent) (checks : Bool) {Client : Type 0}
      (client : Client) where
    abbrev called :
        Result (Request h u) (Error u.Url) → Call h u → Option (RequestBuilder h u Client)
    called r call = apply base64 percent checks (record { client = client; request = r }) call
