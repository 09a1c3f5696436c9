-- ===== src/Logging/Tests.antt =====
-- The theorems on logging at concrete requests.
use reqwest.Prelude.{
  All, codes, Bool, false, Bool-cases, inl, inr, ◌==◌, if◌then◌else◌, sym, ◌∙◌, ℕ, ◌≡◌, refl,
  String, none, some, List, [], ◌∷◌, arith, err,
}
use reqwest.Http.{Headers}
use reqwest.Http.Marked.{marked_headers, plain}
use reqwest.Http.Plain.{plain_urls}
use reqwest.Error.{body_error, end}
use reqwest.Body.{empty}
use reqwest.Request.{HttpRequest, http_11}
use reqwest.Client.{Poll}
use reqwest.Logging.{Answer, headers_to_string}
use reqwest.Logging.Service.{after}
use reqwest.Logging.Lines.{newlines, newlines-headers_to_string}

abbrev get : HttpRequest marked_headers String
get = record {
  method = "GET";
  uri = "https://a.test/";
  headers = ("accept", plain "*/*") ∷ [];
  version = http_11;
  extensions = record { total_timeout = none; others = [] };
  body = empty;
}

abbrev broken : Answer marked_headers plain_urls
broken = err (body_error end)

abbrev inner : HttpRequest marked_headers String → List (Poll (Answer marked_headers plain_urls))
inner req = after 1 broken []

-- Values are read as texts where they have no line break.
abbrev printable : Headers
printable = record marked_headers { to_str = λ v. if newlines v.0 == 0 then some v.0 else none }

printable_line :
    (value : List ℕ × Bool) (text : List ℕ) → printable.to_str value ≡ some text → newlines text ≡ 0
printable_line value text e = elim (Bool-cases (newlines value.0 == 0)) [
  | inl one ↦
      let same : some value.0 ≡ some text = sym (rw one refl) ∙ e in
      let here : value.0 ≡ text = cc in
      let none_in : newlines value.0 ≡ 0 = ground arith in rw⁻¹ here none_in
  | inr more ↦ let never : none ≡ some text = sym (rw more refl) ∙ e in cc
]

abbrev entries : List (String × (List ℕ × Bool))
entries = ("accept", plain "*/*") ∷ ("x-name", (10 ∷ 200 ∷ [], false)) ∷ []

names_read : All (λ entry. newlines (codes entry.0) ≡ 0) entries
unfolding newlines
names_read = (refl, (refl, tt))

newlines-headers_to_string_example :
    newlines (headers_to_string printable (λ v. v.0) entries b'>') ≡ 1
newlines-headers_to_string_example =
    newlines-headers_to_string printable (λ v. v.0) entries b'>' ("accept", plain "*/*")
      (("x-name", (10 ∷ 200 ∷ [], false)) ∷ []) refl refl names_read printable_line
