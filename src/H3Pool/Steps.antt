-- ===== src/H3Pool/Steps.antt =====
-- src/async_impl/h3_client/pool.rs: how clients, locks, waiters and drivers use the pool together.
use reqwest.Prelude.{ℕ, ◌+◌, ◌-◌, ◌<◌, ◌≡◌, Option, some, if◌then◌else◌}
use reqwest.H3Pool.{
  Keys, CloseRx, PoolConnection, Pool, in_progress, acquired, insert_at, set_channel, new,
  connecting, drop_lock, new_connection, try_pool,
}

module _ (k : Keys) (Client : Type 0) where
  -- The pool, and the number of locks of each key that are held outside of it.
  pub record World : Type 0 where
    pub pool : Pool k Client
    pub held : k.Key → ℕ

module _ (k : Keys) where
  abbrev pub take_lock : k.Key → (k.Key → ℕ) → k.Key → ℕ
  take_lock key held j = if k.same j key then held j + 1 else held j

  abbrev pub give_lock : k.Key → (k.Key → ℕ) → k.Key → ℕ
  give_lock key held j = if k.same j key then held j - 1 else held j

module _ {k : Keys} {Client : Type 0} where
  abbrev pub start : Option ℕ → World k Client
  start timeout = record { pool = new timeout; held = λ key. 0 }

  abbrev pub unsubscribe : ℕ → Pool k Client → Pool k Client
  unsubscribe c pool = record pool {
    channels =
        set_channel c (record (pool.channels c) { receivers = (pool.channels c).receivers - 1 })
          pool.channels;
  }

  -- One step of a client, of a lock's holder, of a waiter or of a connection's driver.
  pub data Step (w : World k Client) : World k Client → Type 0 where
    locks :
        (key : k.Key) (lock : k.Key) (pool : Pool k Client)
        → connecting w.pool key ≡ (pool, acquired (some lock))
        → Step w (record { pool = pool; held = take_lock k lock w.held })
    waits :
        (key : k.Key) (c : ℕ) (pool : Pool k Client)
        → connecting w.pool key ≡ (pool, in_progress c)
        → Step w (record { pool = pool; held = w.held })
    drops :
        (key : k.Key)
        → 0 < w.held key
        → Step w (record { pool = drop_lock w.pool (some key); held = give_lock k key w.held })
    connects :
        (key : k.Key) (now : ℕ) (client client' : Client) (pool : Pool k Client)
        → 0 < w.held key
        → new_connection now w.pool (some key) client ≡ some (pool, client')
        → Step w (record { pool = pool; held = give_lock k key w.held })
    pools :
        (key : k.Key) (now : ℕ)
        → Step w (record { pool = (try_pool now w.pool key).0; held = w.held })
    leaves : (c : ℕ) → Step w (record { pool = unsubscribe c w.pool; held = w.held })
    closes :
        (key : k.Key) (conn : PoolConnection Client) (found : CloseRx)
        → w.pool.idle_conns key ≡ some conn
        → Step w (record {
          pool = record w.pool {
            idle_conns = insert_at k key (record conn { close_rx = found }) w.pool.idle_conns;
          };
          held = w.held;
        })

  pub data Reach (timeout : Option ℕ) : World k Client → Type 0 where
    begins : Reach timeout (start timeout)
    goes_on : {w w' : World k Client} → Reach timeout w → Step w w' → Reach timeout w'
