-- ===== src/Response/Tests.antt =====
-- The theorems on responses at concrete values.
use reqwest.Prelude.{◌≡◌, none, some, List, [], ◌∷◌, codes, Result, ok, err, arith}
use reqwest.Http.Plain.{plain_headers, plain_urls, PlainUrl, site}
use reqwest.Error.{Source, timed_out}
use reqwest.Body.{Frame, chunk, trailers}
use reqwest.Request.{http_11}
use reqwest.Response.{HttpResponse, Response, bytes}
use reqwest.Response.Reading.{located, read_all, read_all-bytes}

abbrev frames : List (Result Frame (Source PlainUrl))
frames = ok (chunk (codes "ab")) ∷ ok trailers ∷ ok (chunk (codes "c")) ∷ err timed_out ∷ []

abbrev received : HttpResponse plain_headers plain_urls
received = record {
  status = 404;
  version = http_11;
  headers = [];
  reason = none;
  response_url = some (site "https" "a.test");
  frames = frames;
  exact = none;
}

abbrev response : Response plain_headers plain_urls
response = record { res = received; url = site "https" "a.test" }

read_all-bytes_example : located response.url (read_all 5 response) ≡ bytes response
read_all-bytes_example = read_all-bytes 5 response (omega arith)
