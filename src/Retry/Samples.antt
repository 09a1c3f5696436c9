-- ===== src/Retry/Samples.antt =====
-- Values that the tests of src/retry.rs share.
use reqwest.Prelude.{ℕ, ◌+◌, ◌-◌, ◌^◌, true, false, none, some, [], ◌∷◌, codes, ok, err, leb, ltb}
use reqwest.Http.Plain.{plain_http}
use reqwest.Body.{reusable}
use reqwest.Error.{end, own, h3_connection, legacy, request_error, Kind}
use reqwest.Retry.Classify.{Request, Outcome}
use reqwest.Retry.Budget.{TpsBudget}
use reqwest.Retry.Policy.{Env}

-- A budget is the number of retries that it still grants.
abbrev pub plain_budget : TpsBudget
plain_budget = record {
  Percent = ℕ;
  fifth = 20;
  at_least_zero = λ p. true;
  at_most_thousand = λ p. leb p 100000;
  Budget = ℕ;
  new = λ p. p;
  deposit = λ now b. b + 1;
  withdraw = λ now b. (b - 1, ltb 0 b);
}

abbrev pub env : Env
env = record {
  checks = true;
  random = 2 ^ 63;
  now = 0;
  wall = 0;
  features = record { http2 = true; http3 = true };
}

abbrev pub request : Request plain_http
request = record {
  method = "GET";
  uri = some "a.test";
  version = tt;
  headers = [];
  deadline = some 60000000000;
  body = reusable (1 ∷ []);
}

abbrev pub unavailable : Outcome plain_http
unavailable = ok (record { status = 503; headers = ("retry-after", codes "2") ∷ [] })

abbrev pub success : Outcome plain_http
success = ok (record { status = 200; headers = [] })

abbrev pub idle : Outcome plain_http
idle = err (request_error (legacy false (own Kind.request none (h3_connection "timeout" end))))
