-- ===== src/Blocking.antt =====
-- src/blocking/wait.rs and src/blocking/client.rs: a call that waits for the answer of the async client.
-- A round of the loop is what a poll finds and the instant behind it; an outer `none` is a thread
-- that is still parked.
pub mod Waiting
mod Tests
use mathlib.Core.Option
use reqwest.Prelude.{
  ℕ, ◌+◌, Bool, false, Option, none, some, List, [], ◌∷◌, leb, if◌then◌else◌, Result, ok, err,
}
use reqwest.Config.{or_else}
use reqwest.Client.{Poll, pending, ready}
use reqwest.Error.{Error, Source, request_error, with_url}

pub data Waited (E : Type 0) : Type 0 where
  timed_out : Waited E
  inner : E → Waited E

pub record Round (A E : Type 0) : Type 0 where
  pub found : Poll (Result A E)
  pub now : ℕ

abbrev pub is_past : Option ℕ → ℕ → Bool
is_past none now = false
is_past (some deadline) now = leb deadline now

module _ {A E : Type 0} where
  -- The loop of `timeout`.
  unfoldable pub wait_loop : Option ℕ → List (Round A E) → Option (Result A (Waited E))
  wait_loop deadline [] = none
  wait_loop deadline (r ∷ rs) = elim r.found [
    | ready (ok val) ↦ some (ok val)
    | ready (err e) ↦ some (err (inner e))
    | pending ↦
        if is_past deadline r.now then some (err Waited.timed_out) else wait_loop deadline rs
  ]

  -- `wait::timeout`, entered at an instant.
  unfoldable pub timeout : ℕ → Option ℕ → List (Round A E) → Option (Result A (Waited E))
  unfolding wait_loop
  timeout start limit rounds = wait_loop (Option.map (λ d. start + d) limit) rounds

module _ {Response Url : Type 0} where
  -- The match at the end of `execute_request`.
  unfoldable pub answer :
      Url → Result (Result Response (Error Url)) (Waited (Error Url)) → Result Response (Error Url)
  unfolding with_url
  answer url (ok (err e)) = err (with_url e url)
  answer url (ok (ok res)) = ok res
  answer url (err Waited.timed_out) = err (with_url (request_error Source.timed_out) url)
  answer url (err (inner e)) = err (with_url e url)

  -- `ClientHandle::execute_request`, with the request's own timeout and the client's.
  unfoldable pub execute_request :
      Url
      → (start : ℕ) (own client : Option ℕ) → List (Round (Result Response (Error Url)) (Error Url))
      → Option (Result Response (Error Url))
  unfolding timeout answer
  execute_request url start own client rounds =
      Option.map (answer url) (timeout start (or_else own client) rounds)
