-- ===== src/Blocking/Tests.antt =====
-- The theorem on blocking calls at concrete rounds.
use reqwest.Prelude.{◌⊎◌, Result, ℕ, ◌≡◌, refl, true, some, [], ◌∷◌, ◌++◌, ok, err}
use reqwest.Client.{Poll, pending, ready}
use reqwest.Error.{Error, Kind, is_timeout}
use reqwest.Blocking.{is_past, execute_request}
use reqwest.Blocking.Waiting.{deadline_of, Rounds, at_last, execute_request_lem}

abbrev parked : Rounds ℕ ℕ
parked = record { found = pending; now = 7 } ∷ record { found = pending; now = 30 } ∷ []

execute_request_lem_example :
    ((res : ℕ)
      → execute_request 9 5 (some 30) (some 1) (parked ++ at_last (ready (ok (ok res))) 40 [])
        ≡ some (ok res))
    × ((found : Poll (Result (Result ℕ (Error ℕ)) (Error ℕ))) (e : Error ℕ)
        → (found ≡ ready (ok (err e))) ⊎ (found ≡ ready (err e))
        → execute_request 9 5 (some 30) (some 1) (parked ++ at_last found 40 [])
          ≡ some (err (record e { url = some 9 })))
    × (is_past (deadline_of 5 (some 30) (some 1)) 40 ≡ true
        → (e : Error ℕ) × (execute_request {Response = ℕ} 9 5
              (some 30)
              (some 1)
              (parked ++ at_last pending 40 [])
            ≡ some (err e))
          × (is_timeout e ≡ true)
          × (e.kind ≡ Kind.request)
          × (e.url ≡ some 9))
execute_request_lem_example =
    execute_request_lem 9 5 (some 30) (some 1) parked [] 40 ((refl, refl), ((refl, refl), tt))
