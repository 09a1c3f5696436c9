-- ===== src/Http.antt =====
-- What the code calls of the crates `http` and `url`: types, operations and their documented laws.
-- Header names are lower-case strings; a status code is its number.
pub mod Plain
pub mod Marked
use reqwest.Prelude.{
  ℕ, ◌≡◌, Bool, true, false, String, Option, none, some, List, [], ◌∷◌, ◌++◌, is_some, str_eq,
  if◌then◌else◌, All,
}

abbrev pub head? {ℓ} : {A : Type ℓ} → List A → Option A
head? [] = none
head? (x ∷ xs) = some x

-- The values under a name, in the order of a list of entries.
abbrev pub values {ℓ} : {V : Type ℓ} → String → List (String × V) → List V
values k [] = []
values k ((j, v) ∷ rest) = if str_eq j k then v ∷ values k rest else values k rest

-- `http::HeaderMap`: several values to a name.
pub record Headers : Type 1 where
  pub HeaderValue : Type 0
  pub to_str : HeaderValue → Option (List ℕ)
  pub from_str : String → Option HeaderValue
  pub HeaderMap : Type 0
  pub get_all : HeaderMap → String → List HeaderValue
  pub get : HeaderMap → String → Option HeaderValue
  pub contains_key : HeaderMap → String → Bool
  pub insert : HeaderMap → String → HeaderValue → HeaderMap
  pub remove : HeaderMap → String → HeaderMap
  pub iter : HeaderMap → List (String × HeaderValue)
  pub get_all-iter : (m : HeaderMap) (k : String) → get_all m k ≡ values k (iter m)
  pub get_head : (m : HeaderMap) (k : String) → get m k ≡ head? (get_all m k)
  pub contains_key-get : (m : HeaderMap) (k : String) → contains_key m k ≡ is_some (get m k)
  pub get_all-insert :
      (m : HeaderMap) (k : String) (v : HeaderValue) (j : String)
      → get_all (insert m k v) j ≡ (if str_eq k j then v ∷ [] else get_all m j)
  pub get_all-remove :
      (m : HeaderMap) (k j : String)
      → get_all (remove m k) j ≡ (if str_eq k j then [] else get_all m j)

-- The values under a name, where each name heads one group.
abbrev pub in_group {ℓ} : {V : Type ℓ} → String → List (String × V × List V) → List V
in_group k [] = []
in_group k ((j, v, vs) ∷ rest) = if str_eq j k then v ∷ vs else in_group k rest

abbrev pub Unnamed {ℓ} : {V : Type ℓ} → String → List (String × V × List V) → Type 0
Unnamed k = All (λ g. str_eq g.0 k ≡ false)

abbrev pub Distinct {ℓ} : {V : Type ℓ} → List (String × V × List V) → Type 0
Distinct [] = Unit {0}
Distinct ((j, v, vs) ∷ rest) = Unnamed j rest × Distinct rest

-- What building a request and printing a value need beside: appending, the mark of a sensitive
-- value, which is never printed, and the values of a map group by group, as `into_iter` yields them.
pub record HeaderValues (h : Headers) : Type 0 where
  pub empty : h.HeaderMap
  pub append : h.HeaderMap → String → h.HeaderValue → h.HeaderMap
  pub groups : h.HeaderMap → List (String × h.HeaderValue × List h.HeaderValue)
  pub from_bytes : List ℕ → Option h.HeaderValue
  pub from_u64 : ℕ → h.HeaderValue
  pub set_sensitive : h.HeaderValue → Bool → h.HeaderValue
  pub is_sensitive : h.HeaderValue → Bool
  pub get_all-empty : (k : String) → h.get_all empty k ≡ []
  pub get_all-append :
      (m : h.HeaderMap) (k : String) (v : h.HeaderValue) (j : String)
      → h.get_all (append m k v) j ≡ (if str_eq k j then h.get_all m j ++ v ∷ [] else h.get_all m j)
  pub get_all-groups : (m : h.HeaderMap) (k : String) → h.get_all m k ≡ in_group k (groups m)
  pub groups-Distinct : (m : h.HeaderMap) → Distinct (groups m)
  pub is_sensitive-set_sensitive :
      (v : h.HeaderValue) (b : Bool) → is_sensitive (set_sensitive v b) ≡ b
  pub to_str-set_sensitive :
      (v : h.HeaderValue) (b : Bool) → h.to_str (set_sensitive v b) ≡ h.to_str v

-- `url::Url`, read by its components; the setters return the changed URL.
pub record Urls : Type 1 where
  pub Url : Type 0
  pub parse : String → Option Url
  pub as_str : Url → String
  pub scheme : Url → String
  pub host_str : Url → Option String
  pub port_or_known_default : Url → Option ℕ
  pub username : Url → String
  pub password : Url → Option String
  pub fragment : Url → Option String
  pub has_host : Url → Bool
  pub has_authority : Url → Bool
  pub query : Url → Option String
  pub set_username : Url → String → Url
  pub set_password : Url → Option String → Url
  pub set_fragment : Url → Option String → Url
  pub set_query : Url → Option String → Url
  pub username-set_username : (u : Url) → username (set_username u "") ≡ ""
  pub username-set_password :
      (u : Url) (p : Option String) → username (set_password u p) ≡ username u
  pub username-set_fragment :
      (u : Url) (f : Option String) → username (set_fragment u f) ≡ username u
  pub password-set_password : (u : Url) → password (set_password u none) ≡ none
  pub password-set_username :
      (u : Url) (name : String) → password (set_username u name) ≡ password u
  pub query-set_query : (u : Url) → query (set_query u none) ≡ none
  pub password-set_fragment :
      (u : Url) (f : Option String) → password (set_fragment u f) ≡ password u
  pub fragment-set_fragment : (u : Url) (f : Option String) → fragment (set_fragment u f) ≡ f

-- The parts of `http::Request` that the retry code reads.
pub record Http : Type 1 where
  pub headers : Headers
  pub open headers use *
  pub Method : Type 0
  pub is_idempotent : Method → Bool
  pub Uri : Type 0
  pub host : Uri → Option String
  pub authority : Uri → Option String
  pub Version : Type 0
  pub Url : Type 0
