-- ===== src/Body/Timeouts.antt =====
-- src/async_impl/body.rs: the bodies with a total timeout and with a read timeout.
-- An inner body is a state with its poll; a `Sleep` is the instant at which it is over.
use reqwest.Prelude.{
  ℕ, ◌+◌, ◌≤◌, ◌≡◌, refl, true, Option, none, some, Result, err, leb, if◌then◌else◌, arith,
}
use reqwest.Body.{Frame}
use reqwest.Error.{Source, timed_out, body_error, boxed}

pub data Polled (Url : Type 0) : Type 0 where
  pending : Polled Url
  ready : Option (Result Frame (Source Url)) → Polled Url

-- `poll_frame` of another body, at an instant; its errors are put into a box.
pub record Inner (Url : Type 0) : Type 1 where
  pub State : Type 0
  pub poll_frame : ℕ → State → State × Polled Url

pub record TotalTimeoutBody {Url : Type 0} (i : Inner Url) : Type 0 where
  pub inner : i.State
  pub timeout : ℕ

pub record ReadTimeoutBody {Url : Type 0} (i : Inner Url) : Type 0 where
  pub inner : i.State
  pub sleep : Option ℕ
  pub timeout : ℕ

module _ {Url : Type 0} where
  -- `map_err(crate::error::body)`, boxed again by the code that polls.
  abbrev pub as_body : Option (Result Frame (Source Url)) → Option (Result Frame (Source Url))
  as_body (some (err e)) = some (err (boxed (body_error e)))
  as_body item = item

  abbrev pub timeout_item : Polled Url
  timeout_item = ready (some (err (boxed (body_error timed_out))))

module _ {Url : Type 0} {i : Inner Url} where
  abbrev pub passed : TotalTimeoutBody i → i.State × Polled Url → TotalTimeoutBody i × Polled Url
  passed b (rest, pending) = (record b { inner = rest }, pending)
  passed b (rest, ready item) = (record b { inner = rest }, ready (as_body item))

  unfoldable pub poll_total : ℕ → TotalTimeoutBody i → TotalTimeoutBody i × Polled Url
  poll_total now b =
      if leb b.timeout now then (b, timeout_item) else passed b (i.poll_frame now b.inner)

  -- The `Sleep` that is active, started at the first poll since the last frame.
  abbrev pub active : ℕ → ReadTimeoutBody i → ℕ
  active now b = elim b.sleep [ some at ↦ at | none ↦ now + b.timeout ]

  abbrev pub passed_on :
      ReadTimeoutBody i → ℕ → i.State × Polled Url → ReadTimeoutBody i × Polled Url
  passed_on b at (rest, pending) = (record b { inner = rest; sleep = some at }, pending)
  passed_on b at (rest, ready item) =
      (record b { inner = rest; sleep = none }, ready (as_body item))

  unfoldable pub poll_read : ℕ → ReadTimeoutBody i → ReadTimeoutBody i × Polled Url
  poll_read now b =
      let at = active now b in
      if leb at now
      then (record b { sleep = some at }, timeout_item)
      else passed_on b at (i.poll_frame now b.inner)

  abbrev pub with_read_timeout : i.State → ℕ → ReadTimeoutBody i
  with_read_timeout inner timeout = record { inner = inner; sleep = none; timeout = timeout }

  abbrev pub total_timeout : i.State → ℕ → TotalTimeoutBody i
  total_timeout inner timeout = record { inner = inner; timeout = timeout }

  -- Polls without a frame, the first one at a given instant.
  pub data Waits (first : ℕ) (b : ReadTimeoutBody i) : ReadTimeoutBody i → Type 0 where
    begins : {b' : ReadTimeoutBody i} → poll_read first b ≡ (b', pending) → Waits first b b'
    waits :
        {b' b'' : ReadTimeoutBody i} (now : ℕ)
        → Waits first b b'
        → poll_read now b' ≡ (b'', pending)
        → Waits first b b''

module _ {Url : Type 0} where
  abbrev pub total_body : Inner Url → Inner Url
  unfolding poll_total
  total_body i = record { State = TotalTimeoutBody i; poll_frame = poll_total }

  abbrev pub read_body : Inner Url → Inner Url
  unfolding poll_read
  read_body i = record { State = ReadTimeoutBody i; poll_frame = poll_read }

  -- `response`: the body of a response with the timeouts that it is given.
  unfoldable pub response :
      (i : Inner Url) (body : i.State) → Option ℕ → Option ℕ → (j : Inner Url) × j.State
  unfolding total_body read_body
  response i body (some total) (some read) =
      (total_body (read_body i), total_timeout (with_read_timeout body read) total)
  response i body (some total) none = (total_body i, total_timeout body total)
  response i body none (some read) = (read_body i, with_read_timeout body read)
  response i body none none = (i, body)

  -- The body of a response with a deadline never yields a frame from that instant on, but a timeout,
  -- whatever read timeout there is and whatever the server sends.
  pub response_late :
      (i : Inner Url) (body : i.State) (total : ℕ) (read : Option ℕ) (now : ℕ)
      → total ≤ now
      → ((response i body (some total) read).0.poll_frame now
          (response i body (some total) read).1).1
        ≡ timeout_item
  unfolding response total_body poll_total
  response_late i body total none now h =
      let late : leb total now ≡ true = ground arith in rw late refl
  response_late i body total (some read) now h =
      let late : leb total now ≡ true = ground arith in rw late refl
