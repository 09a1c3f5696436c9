-- ===== src/Middleware.antt =====
-- src/async_impl/middleware.rs: the chain of middleware around what a client sends.
-- What awaiting an answer yields is a type; a middleware is a function of the request and of the rest
-- of the chain, which it may run any number of times.
pub mod Onion
mod Tests
use reqwest.Prelude.{ℕ, zero, suc, ◌+◌, Option, none, some, List, [], ◌∷◌}

module _ (Request Answer : Type 0) where
  abbrev pub Handler : Type 0
  Handler = Request → Answer

  -- `Middleware::handle`.
  abbrev pub Middleware : Type 0
  Middleware = Request → Handler → Answer

-- `Client::middleware`.
abbrev pub nth {ℓ} : {A : Type ℓ} → List A → ℕ → Option A
nth [] n = none
nth (x ∷ xs) zero = some x
nth (x ∷ xs) (suc n) = nth xs n

-- `Next`: the client's middleware, what it does without, and the index.
pub record Next (Request Answer : Type 0) : Type 0 where
  pub middleware : List (Middleware Request Answer)
  pub execute_without_middleware : Handler Request Answer
  pub index : ℕ

module _ {Request Answer : Type 0} where
  abbrev pub new : List (Middleware Request Answer) → Handler Request Answer → Next Request Answer
  new middleware send = record {
    middleware = middleware;
    execute_without_middleware = send;
    index = 0;
  }

  -- `Next::run`, with fuel: each middleware takes one unit, and so does the last send. Out of fuel
  -- the answer is `stuck`.
  unfoldable pub run : Answer → ℕ → Next Request Answer → Handler Request Answer
  run stuck zero next req = stuck
  run stuck (suc fuel) next req = elim (nth next.middleware next.index) [
    | some middleware ↦
        middleware req (λ r. run stuck fuel (record next { index = next.index + 1 }) r)
    | none ↦ next.execute_without_middleware req
  ]

  -- `Client::execute_request`.
  unfoldable pub execute_request :
      Answer
      → ℕ
      → List (Middleware Request Answer)
      → Handler Request Answer
      → Handler Request Answer
  unfolding run
  execute_request stuck fuel [] send req = send req
  execute_request stuck fuel (m ∷ ms) send req = run stuck fuel (new (m ∷ ms) send) req
