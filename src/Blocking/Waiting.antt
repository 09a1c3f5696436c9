-- ===== src/Blocking/Waiting.antt =====
-- src/blocking/wait.rs: when a blocking call returns, and with what.
use mathlib.Core.Option
use reqwest.Prelude.{
  ◌⊎◌, inl, inr, ℕ, ◌+◌, ◌≡◌, refl, ap, ◌∙◌, true, false, Option, some, List, [], ◌∷◌, ◌++◌, All,
  Result, ok, err,
}
use reqwest.Config.{or_else}
use reqwest.Client.{Poll, pending, ready}
use reqwest.Error.{Error, Kind, Source, is_timeout, request_error, with_url}
use reqwest.Blocking.{Waited, Round, is_past, wait_loop, timeout, answer, execute_request}

module _ {A E : Type 0} where
  -- A round that neither finds an answer nor comes too late.
  abbrev pub IsEarly : Option ℕ → Round A E → Type 0
  IsEarly deadline r = (r.found ≡ pending) × (is_past deadline r.now ≡ false)

  wait_loop-append :
      (deadline : Option ℕ) (before rounds : List (Round A E))
      → All (IsEarly deadline) before
      → wait_loop deadline (before ++ rounds) ≡ wait_loop deadline rounds
  unfolding wait_loop
  wait_loop-append deadline [] rounds early = refl
  wait_loop-append deadline (r ∷ before) rounds ((found, time), early) =
      rw (wait_loop, found, time) (wait_loop-append deadline before rounds early)

-- The instant at which a call is over, if there is one.
abbrev pub deadline_of : ℕ → (own client : Option ℕ) → Option ℕ
deadline_of start own client = Option.map (λ d. start + d) (or_else own client)

abbrev pub Rounds : Type 0 → Type 0 → Type 0
Rounds Response Url = List (Round (Result Response (Error Url)) (Error Url))

module _ {Response Url : Type 0} where
  abbrev pub at_last :
      Poll (Result (Result Response (Error Url)) (Error Url))
      → ℕ
      → Rounds Response Url
      → Rounds Response Url
  at_last found now rest = record { found = found; now = now } ∷ rest

  -- A blocking call ends at the first round that finds an answer or comes too late. The request's own
  -- timeout counts before the client's, and without both no round is too late. Too late, it is a
  -- timeout of the kind `request`; an answer is returned even when the time is over by then; and every
  -- error names the URL: a timeout, an error of the client, and one of sending the body.
  pub execute_request_lem :
      (url : Url) (start : ℕ) (own client : Option ℕ) (before rest : Rounds Response Url) (now : ℕ)
      → All (IsEarly (deadline_of start own client)) before
      → ((res : Response)
          → execute_request url start own client (before ++ at_last (ready (ok (ok res))) now rest)
            ≡ some (ok res))
        × ((found : Poll (Result (Result Response (Error Url)) (Error Url))) (e : Error Url)
            → (found ≡ ready (ok (err e))) ⊎ (found ≡ ready (err e))
            → execute_request url start own client (before ++ at_last found now rest)
              ≡ some (err (record e { url = some url })))
        × (is_past (deadline_of start own client) now ≡ true
            → (e : Error Url) × (execute_request url start own client
                  (before ++ at_last pending now rest)
                ≡ some (err e))
              × (is_timeout e ≡ true)
              × (e.kind ≡ Kind.request)
              × (e.url ≡ some url))
  unfolding execute_request timeout answer wait_loop is_timeout with_url
  execute_request_lem url start own client before rest now early =
      let deadline = deadline_of start own client in
      let late : is_past deadline now ≡ true
          → wait_loop deadline (at_last pending now rest) ≡ some (err Waited.timed_out) =
        λ past. rw (wait_loop, past) refl in
      let skip = λ (rounds : Rounds Response Url). wait_loop-append deadline before rounds early in
      (
        λ res. ap (Option.map (answer url)) (skip (at_last (ready (ok (ok res))) now rest)),
        λ found e which. elim which [
          | inl a ↦
              rw a (ap (Option.map (answer url)) (skip (at_last (ready (ok (err e))) now rest)))
          | inr a ↦ rw a (ap (Option.map (answer url)) (skip (at_last (ready (err e)) now rest)))
        ],
        λ past. (
          with_url (request_error Source.timed_out) url,
          ap (Option.map (answer url)) (skip (at_last pending now rest))
              ∙ ap (Option.map (answer url)) (late past),
          refl,
          refl,
          refl,
        ),
      )
