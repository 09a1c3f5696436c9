-- ===== src/Body/Tests.antt =====
-- The theorems on bodies with timeouts at concrete values.
use reqwest.Prelude.{ℕ, ◌+◌, some}
use reqwest.Body.Timeouts.{Inner, pending, ReadTimeoutBody, with_read_timeout}

-- A server that never sends anything.
abbrev stalled : Inner ℕ
stalled = record { State = ℕ; poll_frame = λ now s. (s + 1, pending) }

abbrev fresh : ReadTimeoutBody stalled
fresh = with_read_timeout 0 30

abbrev polled : ReadTimeoutBody stalled
polled = record { inner = 2; sleep = some 35; timeout = 30 }
