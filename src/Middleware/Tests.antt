-- ===== src/Middleware/Tests.antt =====
-- The theorem on middleware at a concrete chain.
use reqwest.Prelude.{ℕ, ◌+◌, ◌*◌, ◌≡◌, List, [], ◌∷◌, arith}
use reqwest.Middleware.{Middleware, execute_request}
use reqwest.Middleware.Onion.{onion, execute_request-onion}

-- One changes the request and the answer, the other sends twice.
abbrev chain : List (Middleware ℕ ℕ)
chain = (λ req next. next (req + 1) * 2) ∷ (λ req next. next req + next (req + 10)) ∷ []

execute_request-onion_example :
    execute_request 0 3 chain (λ req. req) 5 ≡ onion chain (λ req. req) 5
execute_request-onion_example = execute_request-onion 0 3 chain (λ req. req) 5 (omega arith)
