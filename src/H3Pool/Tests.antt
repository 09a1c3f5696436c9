-- ===== src/H3Pool/Tests.antt =====
-- The theorems on the HTTP/3 pool at concrete values.
use reqwest.Prelude.{
  ℕ, ◌<◌, ◌≤◌, ◌≡◌, refl, none, some, [], ◌∷◌, ◌==◌, ==_iff, if◌then◌else◌, arith,
}
use reqwest.H3Pool.{Keys, Pool, new, new_conn, connecting, receive}
use reqwest.H3Pool.Steps.{World, Reach, begins, goes_on, locks, waits, start, take_lock}
use reqwest.H3Pool.Interleaving.{held-le}
use reqwest.H3Pool.Refinement.{Runs, acquires, joins, nothing, view, trace, Reach-Runs}
use reqwest.H3Pool.Waiters.{receive_pending}

abbrev numbers : Keys
numbers = record { Key = ℕ; same = ◌==◌; same_iff = ==_iff }

-- One client has the lock of key 7, and another waits for it.
abbrev one_lock : World numbers ℕ
one_lock = record { pool = (connecting (start none).pool 7).0; held = take_lock numbers 7 (λ j. 0) }

abbrev one_waiter : World numbers ℕ
one_waiter = record { pool = (connecting one_lock.pool 7).0; held = one_lock.held }

one_lock-reached : Reach none one_lock
unfolding connecting
one_lock-reached = goes_on begins (locks 7 7 _ refl)

one_waiter-reached : Reach none one_waiter
unfolding connecting
one_waiter-reached = goes_on one_lock-reached (waits 7 0 _ refl)

waits_for_0 : receive one_waiter.pool 0 ≡ none
unfolding connecting receive
waits_for_0 = refl

held_7 : 0 < one_waiter.held 7
unfolding connecting
held_7 = omega arith

held-le_example : one_waiter.held 7 ≤ 1
held-le_example = held-le none one_waiter 7 one_waiter-reached

Reach-Runs_example : Runs nothing (trace one_waiter-reached) (view one_waiter)
Reach-Runs_example = Reach-Runs none one_waiter one_waiter-reached

seen : trace one_waiter-reached ≡ joins 7 ∷ acquires 7 ∷ []
unfolding trace one_waiter-reached one_lock-reached
seen = refl

receive_pending_example :
    (key : ℕ) × (one_waiter.pool.connecting key ≡ some 0) × (one_waiter.held key ≡ 1)
receive_pending_example = receive_pending none one_waiter 0 one_waiter-reached waits_for_0

abbrev idle : Pool numbers ℕ
idle = record (new none) {
  timeout = some 10;
  idle_conns = λ j. if j == 7 then some (new_conn 5 42) else none;
}
