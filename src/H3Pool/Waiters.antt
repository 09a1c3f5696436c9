-- ===== src/H3Pool/Waiters.antt =====
-- src/async_impl/h3_client/pool.rs: what a held lock, its holder and its waiters get.
use reqwest.Prelude.{
  ℕ, ◌<◌, ◌≡◌, refl, ap, ◌∙◌, true, Option, none, some, ◌==◌, ==_iff, if◌then◌else◌, arith,
}
use reqwest.H3Pool.{Keys, Pool, acquired, connecting, drop_lock, new_connection, try_pool, receive}
use reqwest.H3Pool.Steps.{World, Reach}
use reqwest.H3Pool.Locks.{entries}
use reqwest.H3Pool.Interleaving.{connected, held_entry, Reach-IsValid}

module _ {k : Keys} {Client : Type 0} where
  -- No waiter is forgotten: in every state that is reached, a channel on which a waiter would still
  -- wait belongs to a key whose lock is held.
  pub receive_pending :
      (timeout : Option ℕ) (w : World k Client) (c : ℕ)
      → Reach timeout w
      → receive w.pool c ≡ none
      → (key : k.Key) × (w.pool.connecting key ≡ some c) × (w.held key ≡ 1)
  unfolding receive
  receive_pending timeout w c r e =
      let v = Reach-IsValid r in
      let is_open : (w.pool.channels c).is_open ≡ true = ground arith in
      let (key, found) = v.open_entry c is_open in (key, found, v.locked key ∙ ap entries found)

  -- In every state that is reached, the holder of a lock gets its connection into the pool, and
  -- none of the panics of `new_connection` occurs: every waiter of the key, if there is one, then
  -- receives the client, the pool has it for the next request at the same instant, and the lock's
  -- entry is gone.
  pub new_connection_lem :
      (timeout : Option ℕ) (w : World k Client) (key : k.Key) (now : ℕ) (client : Client)
      → Reach timeout w
      → 0 < w.held key
      → (pool : Pool k Client) × (c : ℕ) × (new_connection now w.pool (some key) client
          ≡ some (pool, client))
        × (w.pool.connecting key ≡ some c)
        × (receive pool c ≡ some (if (w.pool.channels c).receivers == 0 then none else some client))
        × ((try_pool now pool key).1 ≡ some client)
        × (pool.connecting key ≡ none)
  unfolding new_connection receive try_pool connected
  new_connection_lem timeout w key now client r h =
      let v = Reach-IsValid r in
      let (c, found) = held_entry w key v h in
      let here = (k.same_iff key key).1 refl in
      (
        connected w key c now client,
        c,
        rw (found, new_connection) refl,
        found,
        ground (arith, ==_iff c c, v.silent c, v.opens key c found),
        rw (try_pool, here) (ground arith),
        rw here refl,
      )

  -- In every state that is reached, dropping a held lock wakes every waiter of the key without a
  -- client, and the next client that asks gets the lock.
  pub drop_lock_lem :
      (timeout : Option ℕ) (w : World k Client) (key : k.Key)
      → Reach timeout w
      → 0 < w.held key
      → (c : ℕ) × (w.pool.connecting key ≡ some c)
        × (receive (drop_lock w.pool (some key)) c ≡ some none)
        × ((connecting (drop_lock w.pool (some key)) key).1 ≡ acquired (some key))
  unfolding receive drop_lock connecting
  drop_lock_lem timeout w key r h =
      let v = Reach-IsValid r in
      let (c, found) = held_entry w key v h in
      let here = (k.same_iff key key).1 refl in
      (
        c,
        found,
        rw (found, drop_lock) (ground (arith, ==_iff c c, v.silent c, v.opens key c found)),
        rw (found, drop_lock, here, connecting) refl,
      )
