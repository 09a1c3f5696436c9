-- ===== src/Error.antt =====
-- src/error.rs: the error type, its constructors and what it says of its chain of sources.
-- A boxed error is the chain of its sources. Of an error of another crate it keeps what the code's
-- downcasts read; `end` stands for no source.
pub mod Chain
mod Tests
use reqwest.Prelude.{ℕ, Bool, true, false, String, Option, none, some, List, ◌||◌, is_some}

pub data Kind : Type 0 where
  builder request redirect : Kind
  status : ℕ → Option (List ℕ) → Kind
  body decode upgrade middleware : Kind

-- `h2::Error`, with the code of its reason.
pub record H2Error : Type 0 where
  pub is_go_away : Bool
  pub is_reset : Bool
  pub is_remote : Bool
  pub reason : Option ℕ

pub data Source (Url : Type 0) : Type 0 where
  end timed_out bad_scheme too_many_redirects elapsed : Source Url
  text : String → Source Url
  own : Kind → Option Url → Source Url → Source Url
  hyper : Bool → Source Url → Source Url
  legacy : Bool → Source Url → Source Url
  io : Bool → Source Url → Source Url
  h2 : H2Error → Source Url → Source Url
  h3_connection : String → Source Url → Source Url
  other : Source Url → Source Url

pub record Error (Url : Type 0) : Type 0 where
  pub kind : Kind
  pub source : Source Url
  pub url : Option Url

module _ {Url : Type 0} where
  -- `StdError::source`.
  abbrev pub cause : Source Url → Source Url
  cause (own k u s) = s
  cause (hyper t s) = s
  cause (legacy c s) = s
  cause (io t s) = s
  cause (h2 e s) = s
  cause (h3_connection t s) = s
  cause (other s) = s
  cause _ = end

  -- An error put into a box.
  abbrev pub boxed : Error Url → Source Url
  boxed e = own e.kind e.url e.source

  abbrev pub new : Kind → Source Url → Error Url
  new k s = record { kind = k; source = s; url = none }

  unfoldable pub with_url : Error Url → Url → Error Url
  with_url e u = record e { url = some u }

  unfoldable pub if_no_url : Error Url → Url → Error Url
  if_no_url e u = elim e.url [ none ↦ record e { url = some u } | some v ↦ e ]

  pub without_url : Error Url → Error Url
  without_url e = record e { url = none }

  abbrev pub builder_error : Source Url → Error Url
  builder_error s = new builder s

  abbrev pub body_error : Source Url → Error Url
  body_error s = new body s

  abbrev pub decode_error : Source Url → Error Url
  decode_error s = new decode s

  abbrev pub request_error : Source Url → Error Url
  request_error s = new request s

  abbrev pub redirect_error : Source Url → Url → Error Url
  redirect_error s u = record { kind = redirect; source = s; url = some u }

  abbrev pub status_code : Url → ℕ → Option (List ℕ) → Error Url
  status_code u code reason = record { kind = status code reason; source = end; url = some u }

  abbrev pub url_bad_scheme : Url → Error Url
  url_bad_scheme u = record { kind = builder; source = bad_scheme; url = some u }

  abbrev pub url_invalid_uri : Url → Error Url
  url_invalid_uri u = record {
    kind = builder;
    source = text "Parsed Url is not a valid Uri";
    url = some u;
  }

  -- The loop of `is_timeout` over the sources.
  times_out : Source Url → Bool
  times_out timed_out = true
  times_out (own k u s) = times_out s
  times_out (hyper t s) = t || times_out s
  times_out (legacy c s) = times_out s
  times_out (io t s) = t || times_out s
  times_out (h2 e s) = times_out s
  times_out (h3_connection t s) = times_out s
  times_out (other s) = times_out s
  times_out _ = false

  unfoldable pub is_timeout : Error Url → Bool
  unfolding times_out
  is_timeout e = times_out e.source

  -- The loop of `is_connect`.
  fails_to_connect : Source Url → Bool
  fails_to_connect (own k u s) = fails_to_connect s
  fails_to_connect (hyper t s) = fails_to_connect s
  fails_to_connect (legacy c s) = c || fails_to_connect s
  fails_to_connect (io t s) = fails_to_connect s
  fails_to_connect (h2 e s) = fails_to_connect s
  fails_to_connect (h3_connection t s) = fails_to_connect s
  fails_to_connect (other s) = fails_to_connect s
  fails_to_connect _ = false

  pub is_connect : Error Url → Bool
  unfolding fails_to_connect
  is_connect e = fails_to_connect e.source

  -- `Error::status`.
  unfoldable pub status_of : Error Url → Option ℕ
  status_of e = elim e.kind [ status code reason ↦ some code | _ ↦ none ]

  -- A timeout of the crate `tower` becomes the library's own.
  pub cast_to_internal_error : Source Url → Source Url
  cast_to_internal_error elapsed = timed_out
  cast_to_internal_error s = s
