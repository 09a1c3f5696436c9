-- ===== src/Middleware/Onion.antt =====
-- src/async_impl/middleware.rs: the chain against nested functions.
use reqwest.Prelude.{
  ℕ, zero, suc, ◌+◌, ◌<◌, ◌≤◌, ◌≡◌, refl, ap, ◌∙◌, none, some, List, [], ◌∷◌, length, drop,
  Option-cases, inl, inr, arith,
}
use mathlib.Core.Path.{fun_ext}
use reqwest.Middleware.{Handler, Middleware, nth, new, run, execute_request}

module _ {Request Answer : Type 0} where
  -- The first middleware outermost, and the send innermost.
  unfoldable pub onion :
      List (Middleware Request Answer) → Handler Request Answer → Handler Request Answer
  onion [] send req = send req
  onion (m ∷ ms) send req = m req (onion ms send)

  drop_end : (ms : List (Middleware Request Answer)) (i : ℕ) → nth ms i ≡ none → drop i ms ≡ []
  drop_end [] zero e = refl
  drop_end [] (suc i) e = refl
  drop_end (m ∷ ms) zero e = cc
  drop_end (m ∷ ms) (suc i) e = drop_end ms i e

  drop_found :
      (ms : List (Middleware Request Answer)) (i : ℕ) (m : Middleware Request Answer)
      → nth ms i ≡ some m
      → (drop i ms ≡ m ∷ drop (suc i) ms) × (i < length ms)
  drop_found [] i m e = cc
  drop_found (n ∷ ms) zero m e = (cc, omega arith)
  drop_found (n ∷ ms) (suc i) m e = let (same, small) = drop_found ms i m e in (same, omega arith)

  run-drop :
      (stuck : Answer) (fuel : ℕ) (ms : List (Middleware Request Answer))
      (send : Handler Request Answer) (i : ℕ)
      → i ≤ length ms
      → length ms < fuel + i
      → (req : Request)
      → run stuck fuel (record (new ms send) { index = i }) req ≡ onion (drop i ms) send req
  unfolding run onion
  run-drop stuck zero ms send i le lt req = absurd (omega arith)
  run-drop stuck (suc fuel) ms send i le lt req = elim (Option-cases (nth ms i)) [
    | inl none_left ↦ rw (run, none_left, drop_end ms i none_left) refl
    | inr (m, found) ↦
        let (same, small) = drop_found ms i m found in
        let next : i + 1 ≡ suc i = omega arith in
        let rest = fun_ext (run-drop stuck fuel ms send (i + 1) (omega arith) (omega arith)) in
        rw (run, found, same) (ap (m req) (rest ∙ ap (λ k. onion (drop k ms) send) next))
  ]

  -- A client's middleware run in the order in which they were added, each around all later ones, and
  -- what is sent without middleware is innermost; with none the request is sent at once. One unit of
  -- fuel more than there are middleware is enough, so the chain always ends.
  pub execute_request-onion :
      (stuck : Answer) (fuel : ℕ) (ms : List (Middleware Request Answer))
      (send : Handler Request Answer) (req : Request)
      → length ms < fuel
      → execute_request stuck fuel ms send req ≡ onion ms send req
  unfolding execute_request onion
  execute_request-onion stuck fuel [] send req h = refl
  execute_request-onion stuck fuel (m ∷ ms) send req h =
      run-drop stuck fuel (m ∷ ms) send 0 (omega arith) (omega arith) req
