-- ===== src/Body.antt =====
-- src/async_impl/body.rs: a request body, held in memory or streamed.
-- A boxed stream of the crate `http_body` is the list of results that it will still yield and its
-- exact size hint.
pub mod Frames
pub mod Timeouts
mod Tests
use reqwest.Prelude.{
  ℕ, Bool, true, false, Option, none, some, List, [], ◌∷◌, ◌++◌, length, Result, ok, err,
}

pub data Frame : Type 0 where
  chunk : List ℕ → Frame
  trailers : Frame

-- The failures of a stream are the numbers 0, 1, …
pub record Stream : Type 0 where
  pub frames : List (Result Frame ℕ)
  pub exact : Option ℕ

pub data Body : Type 0 where
  reusable : List ℕ → Body
  streaming : Stream → Body

pub as_bytes : Body → Option (List ℕ)
as_bytes (reusable bytes) = some bytes
as_bytes (streaming s) = none

abbrev pub empty : Body
empty = reusable []

unfoldable pub try_clone : Body → Option Body
try_clone (reusable bytes) = some (reusable bytes)
try_clone (streaming s) = none

unfoldable pub content_length : Body → Option ℕ
content_length (reusable bytes) = some (length bytes)
content_length (streaming s) = s.exact

-- `size_hint`, where it is exact.
unfoldable pub size_hint : Body → Option ℕ
size_hint (reusable bytes) = some (length bytes)
size_hint (streaming s) = s.exact

-- A stream's error as the library reports it: of the kind `body`.
pub data BodyError : Type 0 where
  body_error : ℕ → BodyError

abbrev pub as_body_error : Result Frame ℕ → Result Frame BodyError
as_body_error (ok f) = ok f
as_body_error (err e) = err (body_error e)

-- One poll that is ready: the body behind it, and the frame, if any is left.
pub poll_frame : Body → Body × Option (Result Frame BodyError)
poll_frame (reusable []) = (reusable [], none)
poll_frame (reusable (b ∷ bytes)) = (reusable [], some (ok (chunk (b ∷ bytes))))
poll_frame (streaming s) = elim s.frames [
  | [] ↦ (streaming s, none)
  | f ∷ fs ↦ (streaming (record s { frames = fs }), some (as_body_error f))
]
