-- ===== src/Http/Plain.antt =====
-- Instances of the interfaces over association lists, which show that their laws can hold.
use reqwest.Prelude.{
  ℕ, ◌≡◌, refl, String, Option, none, some, List, [], ◌∷◌, is_some, codes, str_eq, eq_iff,
  if◌then◌else◌, arith, not,
}
use reqwest.Http.{Headers, Urls, Http, head?, values}

abbrev pub Entries : Type 0
Entries = List (String × List ℕ)

abbrev pub delete {ℓ} : {V : Type ℓ} → List (String × V) → String → List (String × V)
delete [] k = []
delete ((j, v) ∷ m) k = if str_eq j k then delete m k else (j, v) ∷ delete m k

pub values-delete {ℓ} :
    {V : Type ℓ} (m : List (String × V)) (k j : String)
    → values j (delete m k) ≡ (if str_eq k j then [] else values j m)
values-delete [] k j = ground arith
values-delete ((i, v) ∷ m) k j =
    ground (arith, values-delete m k j, eq_iff i k, eq_iff i j, eq_iff k j)

pub values-put {ℓ} :
    {V : Type ℓ} (m : List (String × V)) (k : String) (v : V) (j : String)
    → values j ((k, v) ∷ delete m k) ≡ (if str_eq k j then v ∷ [] else values j m)
values-put m k v j = ground (arith, values-delete m k j)

abbrev pub plain_headers : Headers
plain_headers = record {
  HeaderValue = List ℕ;
  to_str = some;
  from_str = λ s. some (codes s);
  HeaderMap = Entries;
  get_all = λ m k. values k m;
  get = λ m k. head? (values k m);
  contains_key = λ m k. is_some (head? (values k m));
  insert = λ m k v. (k, v) ∷ delete m k;
  remove = delete;
  get_head = λ m k. refl;
  contains_key-get = λ m k. refl;
  get_all-insert = values-put;
  get_all-remove = values-delete;
  iter = λ m. m;
  get_all-iter = λ m k. refl;
}

pub record PlainUrl : Type 0 where
  pub scheme : String
  pub username : String
  pub password : Option String
  pub host : String
  pub fragment : Option String
  pub query : Option String

abbrev pub site : String → String → PlainUrl
site scheme host = record {
  scheme = scheme;
  username = "";
  password = none;
  host = host;
  fragment = none;
  query = none;
}

-- A text is the host of an `https` URL, and the empty text fails to parse.
abbrev pub plain_urls : Urls
plain_urls = record {
  Url = PlainUrl;
  parse = λ s. if str_eq s "" then none else some (site "https" s);
  as_str = λ u. u.host;
  scheme = λ u. u.scheme;
  host_str = λ u. some u.host;
  port_or_known_default = λ u. if str_eq u.scheme "http" then some 80 else some 443;
  username = λ u. u.username;
  password = λ u. u.password;
  fragment = λ u. u.fragment;
  has_host = λ u. not (str_eq u.host "");
  has_authority = λ u. not (str_eq u.host "");
  query = λ u. u.query;
  set_username = λ u name. record u { username = name };
  set_password = λ u word. record u { password = word };
  set_fragment = λ u part. record u { fragment = part };
  set_query = λ u query. record u { query = query };
  username-set_username = λ u. refl;
  username-set_password = λ u p. refl;
  username-set_fragment = λ u f. refl;
  password-set_password = λ u. refl;
  password-set_username = λ u name. refl;
  query-set_query = λ u. refl;
  password-set_fragment = λ u f. refl;
  fragment-set_fragment = λ u f. refl;
}

-- A method is its name, a URI its host, which is its authority too.
abbrev pub plain_http : Http
plain_http = record {
  headers = plain_headers;
  Method = String;
  is_idempotent = λ m. str_eq m "GET";
  Uri = Option String;
  host = λ u. u;
  authority = λ u. u;
  Version = Unit {0};
  Url = String;
}
