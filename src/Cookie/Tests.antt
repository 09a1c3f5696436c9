-- ===== src/Cookie/Tests.antt =====
-- The theorems on cookies at concrete values.
use reqwest.Prelude.{false, ℕ, ◌≡◌, refl, String, none, some, List, [], ◌∷◌, ◌++◌, codes}
use reqwest.Http.Plain.{plain_urls, site}
use reqwest.Http.Marked.{Marked, plain, marked_headers, marked_values}
use reqwest.Cookie.{Cookies, CookieStore, cookies, call}
use reqwest.Cookie.Jars.{in_name, read, cookies-read}
use reqwest.Cookie.Service.{WithCookies, call_lem}

-- A cookie is its name and value, and a store the list of all cookies.
abbrev pairs : Cookies plain_urls
pairs = record {
  Cookie = List ℕ × List ℕ;
  parse = λ text. some (text, []);
  http_only = λ c. none;
  secure = λ c. none;
  same_site = λ c. none;
  expires = λ c. none;
  Store = List (List ℕ × List ℕ);
  store_response_cookies = λ store more url. store ++ more;
  get_request_values = λ store url. store;
}

abbrev id : List ℕ × List ℕ
id = (codes "id", codes "a=b")

abbrev lang : List ℕ × List ℕ
lang = (codes "lang", codes "en")

cookies-read_example :
    (text : List ℕ) × (cookies pairs marked_values (id ∷ lang ∷ []) (site "https" "a.test")
      ≡ marked_values.from_bytes text)
    × (read in_name text ≡ id ∷ lang ∷ [])
cookies-read_example =
    cookies-read pairs marked_values (id ∷ lang ∷ []) (site "https" "a.test") id (lang ∷ []) refl
      ((refl, refl), ((refl, refl), tt))

abbrev jar : CookieStore marked_headers plain_urls
jar = record {
  State = ℕ;
  cookies = λ state url. some (state ∷ [], false);
  set_cookies = λ state values url. state;
}

call_lem_example :
    (out : List (String × Marked)) × (call jar (some 7) "a.test" (("accept", plain "any") ∷ [])
      ≡ some (site "https" "a.test", out))
    × WithCookies jar (("accept", plain "any") ∷ []) (some (7 ∷ [], false)) out
call_lem_example =
    call_lem jar 7 "a.test" (("accept", plain "any") ∷ []) (site "https" "a.test") refl
