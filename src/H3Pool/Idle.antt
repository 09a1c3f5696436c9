-- ===== src/H3Pool/Idle.antt =====
-- src/async_impl/h3_client/pool.rs, `try_pool`: which pooled connections are handed out.
use reqwest.Prelude.{
  ℕ, ◌≡◌, ◌↔◌, ap, false, Option, none, some, if◌then◌else◌, Bool-cases, Option-cases, inl, inr,
  arith,
}
use reqwest.H3Pool.{Keys, PoolConnection, Pool, is_invalid, is_expired, try_pool}

module _ {Client : Type 0} where
  abbrev pub used_at : ℕ → Option (PoolConnection Client) → Option (PoolConnection Client)
  used_at now none = none
  used_at now (some conn) = some (record conn { idle_timeout = now })

  -- What the pool holds of the key afterwards, by what was handed out.
  abbrev pub left_over :
      ℕ → Option (PoolConnection Client) → Option Client → Option (PoolConnection Client)
  left_over now conn none = none
  left_over now conn (some client) = used_at now conn

module _ {k : Keys} {Client : Type 0} where
  -- A pooled connection of the key that its driver has not closed and that is not expired.
  pub record Usable (now : ℕ) (pool : Pool k Client) (key : k.Key) (client : Client) : Type 0 where
    pub conn : PoolConnection Client
    pub pooled : pool.idle_conns key ≡ some conn
    pub same_client : conn.client ≡ client
    pub valid : is_invalid conn.close_rx ≡ false
    pub young : is_expired pool.timeout now conn.idle_timeout ≡ false

  Usable-try_pool :
      (now : ℕ) (pool : Pool k Client) (key : k.Key) (client : Client)
      → Usable now pool key client
      → (try_pool now pool key).1 ≡ some client
  unfolding try_pool
  Usable-try_pool now pool key client u =
      rw (u.pooled, try_pool, u.valid, u.young) (ap some u.same_client)

  try_pool-Usable :
      (now : ℕ) (pool : Pool k Client) (key : k.Key) (client : Client)
      → (try_pool now pool key).1 ≡ some client
      → Usable now pool key client
  unfolding try_pool
  try_pool-Usable now pool key client e = elim (Option-cases (pool.idle_conns key)) [
    | inl absent ↦ cc (rw (absent, try_pool) at e)
    | inr (conn, found) ↦ elim (Bool-cases (is_invalid conn.close_rx)) [
      | inl bad ↦ cc (rw (found, try_pool, bad) at e)
      | inr good ↦ elim (Bool-cases (is_expired pool.timeout now conn.idle_timeout)) [
        | inl old ↦ cc (rw (found, try_pool, good, old) at e)
        | inr young ↦
            let e' = rw (found, try_pool, good, young) at e in
            record { conn = conn; pooled = found; same_client = cc; valid = good; young = young }
      ]
    ]
  ]

  -- A client is handed out exactly when the pool has a connection of the key that its driver has
  -- not closed and that was last used no longer ago than the timeout, if there is one.
  pub try_pool_iff :
      (now : ℕ) (pool : Pool k Client) (key : k.Key) (client : Client)
      → ((try_pool now pool key).1 ≡ some client) ↔ Usable now pool key client
  try_pool_iff now pool key client =
      (try_pool-Usable now pool key client, Usable-try_pool now pool key client)

  -- Where no client is handed out the key has no connection afterwards, so a stale one is never
  -- looked at again; where one is, its idle time starts anew; other keys keep their connections.
  pub idle_conns-try_pool :
      (now : ℕ) (pool : Pool k Client) (key j : k.Key)
      → (try_pool now pool key).0.idle_conns j ≡ (
          if k.same j key
          then left_over now (pool.idle_conns key) (try_pool now pool key).1
          else pool.idle_conns j)
  unfolding try_pool
  idle_conns-try_pool now pool key j = ground (arith, k.same_iff j key)
