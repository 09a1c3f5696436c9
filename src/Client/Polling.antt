-- ===== src/Client/Polling.antt =====
-- src/async_impl/client.rs, `PendingRequest::poll`: timeouts and errors.
use mathlib.Core.Path.{subst}
use reqwest.Prelude.{
  ◌⊎◌, ℕ, ◌≡◌, ◌≢◌, refl, sym, ap, ◌∙◌, ◌||◌, true, false, Option, none, some, is_some, List, [],
  ◌∷◌, ◌++◌, Result, ok, err, Bool-cases, inl, inr, arith,
}
use reqwest.Http.{Urls}
use reqwest.Error.{Error, Kind, is_timeout, with_url, if_no_url}
use reqwest.Client.{
  Poll, pending, ready, Response, PendingRequest, timeout_error, failed, answered, is_over, poll,
}

Poll-cases {ℓ} : {A : Type ℓ} (x : Poll A) → (x ≡ pending) ⊎ ((a : A) × (x ≡ ready a))
Poll-cases pending = inl refl
Poll-cases (ready a) = inr (a, refl)

module _ (u : Urls) where
  failed-url : (p : PendingRequest u) (e : Error u.Url) → is_some (failed u p e).url ≡ true
  unfolding failed with_url if_no_url
  failed-url p e = ground arith

  -- Every error of a polled request names a URL, unless it is of the kind decode.
  pub poll-url :
      (now : ℕ) (p : PendingRequest u) (in_flight : Poll (Result Response (Error u.Url)))
      (e : Error u.Url)
      → poll u now p in_flight ≡ ready (err e)
      → e.kind ≢ Kind.decode
      → is_some e.url ≡ true
  unfolding poll timeout_error answered with_url
  poll-url now p pending e q n = ground arith
  poll-url now p (ready (err x)) e q n = ground (arith, failed-url p x)
  poll-url now p (ready (ok res)) e q n = ground arith

  -- Awaiting a request, polled at the given instants, each with what its service's future finds then:
  -- when it ends, and how.
  pub awaited :
      PendingRequest u
      → List (ℕ × Poll (Result Response (Error u.Url)))
      → Option (ℕ × Result (Response × u.Url) (Error u.Url))
  awaited p [] = none
  awaited p ((now, found) ∷ rounds) =
      let later = awaited p rounds in
      elim (poll u now p found) [ ready res ↦ some (now, res) | pending ↦ later ]

  -- An instant at which one of the timers is over.
  abbrev pub TooLate : PendingRequest u → ℕ → Type 0
  TooLate p now = (is_over u now p.total_timeout || is_over u now p.read_timeout_fut) ≡ true

  -- How a poll at an instant may end.
  pub data Ends (p : PendingRequest u) (now : ℕ) (res : Result (Response × u.Url) (Error u.Url))
      : Type 0 where
    in_time :
        (is_over u now p.total_timeout || is_over u now p.read_timeout_fut) ≡ false
        → ((e : Error u.Url) → res ≡ err e → e.kind ≢ Kind.decode → is_some e.url ≡ true)
        → Ends p now res
    late :
        (e : Error u.Url)
        → TooLate p now
        → res ≡ err e
        → is_timeout e ≡ true
        → e.kind ≡ Kind.request
        → e.url ≡ some p.url
        → Ends p now res

  poll-TooLate :
      (now : ℕ) (p : PendingRequest u) (found : Poll (Result Response (Error u.Url)))
      → TooLate p now
      → poll u now p found ≡ ready (err (timeout_error u p.url))
  unfolding poll
  poll-TooLate now p found over = ground arith

  timeout-Ends :
      (now : ℕ) (p : PendingRequest u) → TooLate p now → Ends p now (err (timeout_error u p.url))
  unfolding timeout_error with_url is_timeout
  timeout-Ends now p over = late (timeout_error u p.url) over refl refl refl refl

  poll-Ends :
      (now : ℕ) (p : PendingRequest u) (found : Poll (Result Response (Error u.Url)))
      (res : Result (Response × u.Url) (Error u.Url))
      → poll u now p found ≡ ready res
      → Ends p now res
  poll-Ends now p found res e =
      elim (Bool-cases (is_over u now p.total_timeout || is_over u now p.read_timeout_fut)) [
        | inl over ↦
            let both : ready (err (timeout_error u p.url)) ≡ ready res =
              sym (poll-TooLate now p found over) ∙ e in
            let same : err (timeout_error u p.url) ≡ res = cc in
            subst (Ends p now) same (timeout-Ends now p over)
        | inr young ↦ in_time young (λ x q n. poll-url now p found x (e ∙ ap ready q) n)
      ]

  -- However a request is polled, it ends at the latest with the first poll at which its total or its
  -- read timeout is over, whatever the service answers. It ends with a timeout, of the kind request,
  -- that names its URL, if one of them is over by then, and otherwise with a response or with an error
  -- that names a URL, unless it is of the kind decode.
  pub awaited_lem :
      (p : PendingRequest u) (before rest : List (ℕ × Poll (Result Response (Error u.Url))))
      (now : ℕ) (found : Poll (Result Response (Error u.Url)))
      → TooLate p now
      → (end : ℕ × Result (Response × u.Url) (Error u.Url)) × (awaited p
            (before ++ (now, found) ∷ [])
          ≡ some end)
        × (awaited p (before ++ (now, found) ∷ rest) ≡ some end)
        × Ends p end.0 end.1
  unfolding awaited
  awaited_lem p [] rest now found over =
      let ended = poll-TooLate now p found over in
      (
        (now, err (timeout_error u p.url)),
        rw (awaited, ended) refl,
        rw (awaited, ended) refl,
        timeout-Ends now p over,
      )
  awaited_lem p ((t, f) ∷ before) rest now found over = elim (Poll-cases (poll u t p f)) [
    | inl wait ↦ rw (awaited, wait) (awaited_lem p before rest now found over)
    | inr (res, end) ↦
        ((t, res), rw (awaited, end) refl, rw (awaited, end) refl, poll-Ends t p f res end)
  ]
