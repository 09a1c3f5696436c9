-- ===== src/Redirect/Tests.antt =====
-- The theorems on redirects at concrete values.
use reqwest.Prelude.{◌+◌, ◌≤◌, ◌≡◌, refl, none, some, [], ◌∷◌, codes, arith, ok}
use reqwest.Http.Plain.{plain_headers, plain_urls, PlainUrl, site, Entries}
use reqwest.Redirect.Policy.{limit, cross_host, check}
use reqwest.Redirect.Tower.{Tower, TowerAttempt, TowerAction, redirect, Request, on_request, new}
use reqwest.Redirect.Tower.Limits.{hops, hops-le}
use reqwest.Redirect.Tower.Requests.{get_all-on_request}

abbrev first : PlainUrl
first = site "https" "a.test"

abbrev second : PlainUrl
second = site "https" "b.test"

abbrev secret : Entries
secret = ("cookie", codes "id") ∷ ("accept", codes "any") ∷ []

abbrev start : Tower PlainUrl
start = new (limit 1)

abbrev away : TowerAttempt
away = record { status = 302; previous = "a.test"; location = "b.test" }

abbrev moved : Tower PlainUrl
moved = record start { urls = first ∷ [] }

away_followed : redirect plain_urls start away ≡ some (moved, ok TowerAction.follow)
unfolding redirect check
away_followed = refl

hops-le_example : 0 + hops plain_urls (away ∷ away ∷ []) start ≤ 1
hops-le_example = hops-le plain_urls 1 (away ∷ away ∷ []) start refl (omega arith)

abbrev request : Request plain_headers plain_urls
request = record { uri = "b.test"; headers = secret; deadline = some 9 }

abbrev later : Request plain_headers plain_urls
later = record { uri = "b.test"; headers = secret; deadline = none }

get_all-on_request_example :
    plain_headers.get_all (on_request plain_headers plain_urls moved request).1.headers "cookie"
    ≡ []
unfolding cross_host
get_all-on_request_example =
    get_all-on_request plain_headers plain_urls moved request second "cookie" refl (λ e. cc e)
