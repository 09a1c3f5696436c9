-- ===== src/Logging/Service.antt =====
-- src/logging.rs, the service: what is logged of a request.
use reqwest.Prelude.{ℕ, zero, suc, List, [], ◌∷◌}
use reqwest.Client.{Poll, ready, pending}

-- An answer behind polls that find nothing.
abbrev pub after {ℓ} : {A : Type ℓ} → ℕ → A → List (Poll A) → List (Poll A)
after zero answer rest = ready answer ∷ rest
after (suc n) answer rest = pending ∷ after n answer rest

abbrev pub repeated {ℓ} : {A : Type ℓ} → ℕ → A → List A
repeated zero a = []
repeated (suc n) a = a ∷ repeated n a
