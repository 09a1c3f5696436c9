-- ===== src/Client/Tests.antt =====
-- The theorems on the client at concrete values.
use reqwest.Prelude.{ℕ, Result, List, ◌≡◌, refl, false, none, some, [], ◌∷◌, codes, err}
use reqwest.Http.Plain.{plain_headers, plain_urls, PlainUrl, site, Entries}
use reqwest.Body.{empty}
use reqwest.Error.{Error, request_error, timed_out, with_url}
use reqwest.Proxy.{intercept_custom, Proxy, with_no_proxy, intercept, into_matcher}
use reqwest.Proxy.Exclusions.{intercept-with_no_proxy}
use reqwest.Request.{Request, http_11}
use reqwest.Client.{
  ClientRef, Sent, Clock, insert_defaults, pending, ready, PendingRequest, Response, poll,
}
use reqwest.Http.Marked.{marked_headers, marked_values}
use reqwest.Request.Authority.{Base64}
use reqwest.Request.Builder.Calls.{Call}
use reqwest.IntoUrl.{Given}
use reqwest.Proxy.Plain.{proxy_urls, plain_matchers, matcher}
use reqwest.Client.Defaults.{or_first, get_all-insert_defaults}
use reqwest.Client.Polling.{awaited, Ends, awaited_lem}

abbrev defaults : Entries
defaults = ("accept", codes "a") ∷ ("accept", codes "b") ∷ []

get_all-insert_defaults_example :
    plain_headers.get_all (insert_defaults plain_headers [] defaults) "accept"
    ≡ or_first [] (codes "a" ∷ codes "b" ∷ [])
get_all-insert_defaults_example = get_all-insert_defaults plain_headers [] defaults "accept"

abbrev client : ClientRef plain_headers proxy_urls plain_matchers
client = record {
  headers = defaults;
  total_timeout = record { value = some 30 };
  read_timeout = none;
  proxies = matcher ∷ [];
  proxies_maybe_http_auth = false;
  proxies_maybe_http_custom_headers = false;
  https_only = false;
  h3_client = false;
}

abbrev request : Request plain_headers proxy_urls
request = record {
  method = "GET";
  url = record {
    scheme = "http";
    username = "me";
    password = none;
    host = "a.test";
    fragment = none;
    query = none;
  };
  headers = [];
  body = none;
  version = http_11;
  extensions = record { total_timeout = none; others = [] };
}

abbrev clock : Clock
clock = record { now = 5; last = 1000 }

abbrev sent : Sent plain_headers proxy_urls plain_matchers
sent = record {
  by_h3 = false;
  method = "GET";
  version = http_11;
  url = request.url;
  uri = "a.test";
  headers = ("accept", codes "a") ∷ [];
  body = empty;
  deadline = some 35;
  total_timeout = some 35;
  read_timeout = none;
}

abbrev overdue : PendingRequest plain_urls
overdue = record {
  url = site "https" "a.test";
  by_h3 = false;
  total_timeout = some 35;
  read_timeout_fut = none;
}

awaited_lem_example :
    (end : ℕ × Result (Response × PlainUrl) (Error PlainUrl)) × (awaited plain_urls overdue
        ((7, pending) ∷ (40, pending) ∷ [])
      ≡ some end)
    × (awaited plain_urls overdue ((7, pending) ∷ (40, pending) ∷ (50, pending) ∷ []) ≡ some end)
    × Ends plain_urls overdue end.0 end.1
awaited_lem_example =
    awaited_lem plain_urls overdue ((7, pending) ∷ []) ((50, pending) ∷ []) 40 pending refl

times_out :
    poll plain_urls 40 overdue pending
    ≡ ready (err (record (request_error timed_out) { url = some overdue.url }))
unfolding poll with_url
times_out = refl

abbrev function : Proxy plain_headers proxy_urls
function = record {
  extra = record { auth = none; misc = none };
  intercept = intercept_custom (record { func = λ url. none; no_proxy = none });
  no_proxy = none;
}

intercept-with_no_proxy_example :
    intercept {x = plain_matchers} (into_matcher (with_no_proxy function (some "a.test"))) "a.test"
    ≡ intercept (into_matcher function) "a.test"
intercept-with_no_proxy_example =
    intercept-with_no_proxy {x = plain_matchers} function
      (record { func = λ url. none; no_proxy = none }) (some "a.test") "a.test" refl

abbrev unencoded : Base64 marked_headers marked_values
unencoded = record { encode = λ bytes. bytes; encode_valid = λ bytes. (_, refl) }

abbrev nowhere : Given plain_urls
nowhere = Given.text ""

abbrev later : List (Call marked_headers plain_urls)
later = Call.timeout 5 ∷ Call.bearer_auth (codes "token") ∷ []
