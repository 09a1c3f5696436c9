-- ===== src/Logging.antt =====
-- src/logging.rs: the service that logs requests and responses, and the formatter that prints.
-- What is logged is a list, in order. A text is a list of bytes.
pub mod Service
pub mod Lines
mod Tests
use reqwest.Prelude.{
  ℕ, zero, suc, ◌+◌, ◌/◌, ◌%◌, String, Option, none, some, List, [], ◌∷◌, ◌++◌, map, ltb, codes,
  if◌then◌else◌, Result, ok, err,
}
use reqwest.Http.{Headers, Urls}
use reqwest.Error.{Error}
use reqwest.Request.{Version, HttpRequest}
use reqwest.Response.{HttpResponse}
use reqwest.Client.{Poll, ready, pending}

module _ (h : Headers) (u : Urls) where
  pub record RequestLog : Type 0 where
    pub method : String
    pub uri : String
    pub version : Version
    pub headers : h.HeaderMap

  pub record ResponseLog : Type 0 where
    pub url : String
    pub version : Version
    pub status : ℕ
    pub headers : h.HeaderMap

  pub record ErrorLog : Type 0 where
    pub url : String
    pub error : Error u.Url

  -- A call of a method of `LoggerFormatter`.
  pub data Event : Type 0 where
    log_request : RequestLog → Event
    log_response : ResponseLog → Event
    log_error : ErrorLog → Event

  -- What a service's future yields.
  abbrev pub Answer : Type 0
  Answer = Result (HttpResponse h u) (Error u.Url)

-- `LoggerFuture`, with the formatter that it calls, if any, and what is left of the inner future: the
-- answers to its next polls.
pub record LoggerFuture (h : Headers) (u : Urls) (Formatter : Type 0) : Type 0 where
  pub inner : List (Poll (Answer h u))
  pub logger : Option Formatter
  pub url : String

module _ {h : Headers} {u : Urls} where
  abbrev pub new_request : {Uri : Type 0} → (Uri → String) → HttpRequest h Uri → RequestLog h u
  new_request to_string req = record {
    method = req.method;
    uri = to_string req.uri;
    version = req.version;
    headers = req.headers;
  }

  abbrev pub new_response : String → HttpResponse h u → ResponseLog h u
  new_response url res = record {
    url = url;
    version = res.version;
    status = res.status;
    headers = res.headers;
  }

  abbrev pub outcome : String → Answer h u → Event h u
  outcome url (ok res) = log_response (new_response url res)
  outcome url (err e) = log_error (record { url = url; error = e })

-- What the service does, in order: it calls its formatter, its inner service, or polls that one's
-- future.
pub data Act (h : Headers) (u : Urls) (Formatter Uri : Type 0) : Type 0 where
  logs : Formatter → Event h u → Act h u Formatter Uri
  calls_inner : HttpRequest h Uri → Act h u Formatter Uri
  polls_inner : Act h u Formatter Uri

module _ {h : Headers} {u : Urls} {Formatter Uri : Type 0} where
  abbrev pub by : Option Formatter → Event h u → List (Act h u Formatter Uri)
  by none event = []
  by (some f) event = logs f event ∷ []

  -- `LoggerService::call`, over an inner service that gives a future.
  unfoldable pub call :
      (Uri → String)
      → Option Formatter
      → (HttpRequest h Uri → List (Poll (Answer h u)))
      → HttpRequest h Uri
      → List (Act h u Formatter Uri) × LoggerFuture h u Formatter
  call to_string logger inner req = (
    by logger (log_request (new_request to_string req)) ++ calls_inner req ∷ [],
    record { inner = inner req; logger = logger; url = to_string req.uri },
  )

  -- One poll: what is done, the answer, and the future that is left. A future without answers is
  -- pending.
  unfoldable pub poll :
      LoggerFuture h u Formatter
      → List (Act h u Formatter Uri) × Poll (Answer h u) × LoggerFuture h u Formatter
  poll f = elim f.inner [
    | [] ↦ (polls_inner ∷ [], pending, f)
    | pending ∷ rest ↦ (polls_inner ∷ [], pending, record f { inner = rest })
    | ready answer ∷ rest ↦
        (polls_inner ∷ by f.logger (outcome f.url answer), ready answer, record f { inner = rest })
  ]

  -- Awaiting the future, with at most so many polls: all that is done, and the answer.
  unfoldable pub drive :
      ℕ → LoggerFuture h u Formatter → List (Act h u Formatter Uri) × Option (Answer h u)
  unfolding poll
  drive zero f = ([], none)
  drive (suc n) f =
      let (acts, answer, next) = poll f in
      let (more, out) = drive n next in
      elim answer [ ready a ↦ (acts, some a) | pending ↦ (acts ++ more, out) ]

  -- A request through the service, from the call to its answer.
  unfoldable pub serve :
      (Uri → String)
      → Option Formatter
      → (HttpRequest h Uri → List (Poll (Answer h u)))
      → HttpRequest h Uri
      → ℕ
      → List (Act h u Formatter Uri) × Option (Answer h u)
  unfolding call drive
  serve to_string logger inner req polls =
      let (acts, future) = call to_string logger inner req in
      let (more, out) = drive polls future in (acts ++ more, out)

-- `headers_to_string`, with the bytes of a value that is not text.
-- A byte in decimal.
abbrev pub decimal : ℕ → List ℕ
decimal n =
    if ltb n 10
    then (48 + n) ∷ []
    else if ltb n 100
    then (48 + n / 10) ∷ (48 + n % 10) ∷ []
    else (48 + n / 100) ∷ (48 + n / 10 % 10) ∷ (48 + n % 10) ∷ []

abbrev pub commas : List ℕ → List ℕ
commas [] = []
commas (b ∷ []) = decimal b
commas (b ∷ c ∷ rest) = decimal b ++ b',' ∷ b' ' ∷ commas (c ∷ rest)

abbrev pub debug_bytes : List ℕ → List ℕ
debug_bytes bytes = b'[' ∷ commas bytes ++ b']' ∷ []

abbrev pub join_lines : List (List ℕ) → List ℕ
join_lines [] = []
join_lines (l ∷ []) = l
join_lines (l ∷ m ∷ rest) = l ++ 10 ∷ join_lines (m ∷ rest)

module _ (h : Headers) (as_bytes : h.HeaderValue → List ℕ) where
  abbrev pub shown : h.HeaderValue → List ℕ
  shown value = elim (h.to_str value) [ some text ↦ text | none ↦ debug_bytes (as_bytes value) ]

  abbrev pub header_line : ℕ → String × h.HeaderValue → List ℕ
  header_line dir (name, value) = dir ∷ b' ' ∷ codes name ++ b':' ∷ b' ' ∷ shown value

  unfoldable pub headers_to_string : h.HeaderMap → ℕ → List ℕ
  headers_to_string headers dir = join_lines (map (header_line dir) (h.iter headers))
