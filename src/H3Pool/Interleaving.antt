-- ===== src/H3Pool/Interleaving.antt =====
-- src/async_impl/h3_client/pool.rs: the invariant along the steps of the pool.
use mathlib.Core.Path.{subst}
use reqwest.Prelude.{
  ℕ, ◌<◌, ◌≤◌, ◌≡◌, refl, ap, Option, none, some, ==_iff, Bool-cases, Option-cases, inl, inr, arith,
}
use reqwest.H3Pool.{
  Keys, PoolConnection, Channel, Pool, in_progress, acquired, insert_at, remove_at, set_channel,
  new_conn, is_invalid, is_expired, close, send, subscribe, connecting, drop_lock, new_connection,
  try_pool,
}
use reqwest.H3Pool.Steps.{
  World, unsubscribe, take_lock, give_lock, Step, locks, waits, drops, connects, pools, leaves,
  closes, Reach, begins, goes_on,
}
use reqwest.H3Pool.Locks.{
  entries, IsValid, start-IsValid, removed, removed-IsValid, opened, opened-IsValid, IsQuiet,
  quiet-IsValid,
}

module _ {k : Keys} {Client : Type 0} where
  pub connecting-acquired :
      (w : World k Client) (key lock : k.Key) (pool : Pool k Client)
      → connecting w.pool key ≡ (pool, acquired (some lock))
      → (w.pool.connecting key ≡ none) × (opened w key ≡ pool) × (key ≡ lock)
  unfolding connecting opened
  connecting-acquired w key lock pool e = elim (Option-cases (w.pool.connecting key)) [
    | inl absent ↦ let e' = rw (absent, connecting) at e in (absent, cc, cc)
    | inr (c, found) ↦ cc (rw (found, connecting) at e)
  ]

  set-IsQuiet :
      (w : World k Client) (c : ℕ) (x : Channel Client)
      → x.is_open ≡ (w.pool.channels c).is_open
      → x.value ≡ (w.pool.channels c).value
      → IsQuiet w (record w.pool { channels = set_channel c x w.pool.channels })
  unfolding IsQuiet
  set-IsQuiet w c x o v =
      (refl, refl, λ d. ground (arith, ==_iff d c), λ d. ground (arith, ==_iff d c))

  pub connecting-IsQuiet :
      (w : World k Client) (key : k.Key) (c : ℕ) (pool : Pool k Client)
      → connecting w.pool key ≡ (pool, in_progress c)
      → IsQuiet w pool
  unfolding connecting
  connecting-IsQuiet w key c pool e = elim (Option-cases (w.pool.connecting key)) [
    | inl absent ↦ cc (rw (absent, connecting) at e)
    | inr (d, found) ↦
        let e' = rw (found, connecting) at e in
        subst (IsQuiet w) (ap (λ r. r.0) e')
          (set-IsQuiet w d (subscribe (w.pool.channels d)) refl refl)
  ]

  idle-IsQuiet :
      (w : World k Client) (idle : k.Key → Option (PoolConnection Client))
      → IsQuiet w (record w.pool { idle_conns = idle })
  unfolding IsQuiet
  idle-IsQuiet w idle = (refl, refl, λ c. refl, λ c. refl)

  try_pool-IsQuiet :
      (w : World k Client) (key : k.Key) (now : ℕ) → IsQuiet w (try_pool now w.pool key).0
  unfolding try_pool
  try_pool-IsQuiet w key now = elim (Option-cases (w.pool.idle_conns key)) [
    | inl absent ↦ rw (absent, try_pool) (idle-IsQuiet w w.pool.idle_conns)
    | inr (conn, found) ↦ elim (Bool-cases (is_invalid conn.close_rx)) [
      | inl bad ↦ rw (found, try_pool, bad) (idle-IsQuiet w _)
      | inr good ↦ elim (Bool-cases (is_expired w.pool.timeout now conn.idle_timeout)) [
        | inl old ↦ rw (found, try_pool, good, old) (idle-IsQuiet w _)
        | inr young ↦ rw (found, try_pool, good, young) (idle-IsQuiet w _)
      ]
    ]
  ]

  -- The entry of a held lock.
  pub held_entry :
      (w : World k Client) (key : k.Key)
      → IsValid w
      → 0 < w.held key
      → (c : ℕ) × (w.pool.connecting key ≡ some c)
  held_entry w key v h = elim (Option-cases (w.pool.connecting key)) [
    | inl absent ↦ absurd (ground (arith, v.locked key))
    | inr found ↦ found
  ]

  -- The pool once the connection is in it.
  unfoldable pub connected : World k Client → k.Key → ℕ → ℕ → Client → Pool k Client
  connected w key c now client = record w.pool {
    connecting = remove_at k key w.pool.connecting;
    idle_conns = insert_at k key (new_conn now client) w.pool.idle_conns;
    channels = set_channel c (close (send client (w.pool.channels c))) w.pool.channels;
  }

  connected-IsValid :
      (w : World k Client) (key : k.Key) (now : ℕ) (client client' : Client) (pool : Pool k Client)
      → IsValid w
      → 0 < w.held key
      → new_connection now w.pool (some key) client ≡ some (pool, client')
      → IsValid (record { pool = pool; held = give_lock k key w.held })
  unfolding new_connection removed connected
  connected-IsValid w key now client client' pool v h e =
      let (c, found) = held_entry w key v h in
      let x = close (send client (w.pool.channels c)) in
      let between : World k Client = record {
        pool = removed w key c x;
        held = give_lock k key w.held;
      } in
      let valid = removed-IsValid w key c x v found (ground arith) in
      let e' = rw (found, new_connection) at e in
      let same : connected w key c now client ≡ pool = cc in
      subst (λ p. IsValid (record { pool = p; held = give_lock k key w.held })) same
        (quiet-IsValid between (connected w key c now client) valid
          (idle-IsQuiet between (insert_at k key (new_conn now client) w.pool.idle_conns)))

  Step-IsValid : {w w' : World k Client} → IsValid w → Step w w' → IsValid w'
  unfolding drop_lock removed
  Step-IsValid {w} v (locks key lock pool e) =
      let (absent, same, same_key) = connecting-acquired w key lock pool e in
      subst (λ p. IsValid (record { pool = p; held = take_lock k lock w.held })) same
        (subst (λ l. IsValid (record { pool = opened w key; held = take_lock k l w.held })) same_key
          (opened-IsValid w key v absent))
  Step-IsValid {w} v (waits key c pool e) =
      quiet-IsValid w pool v (connecting-IsQuiet w key c pool e)
  Step-IsValid {w} v (drops key h) =
      let (c, found) = held_entry w key v h in
      rw (found, drop_lock) (removed-IsValid w key c (close (w.pool.channels c)) v found refl)
  Step-IsValid {w} v (connects key now client client' pool h e) =
      connected-IsValid w key now client client' pool v h e
  Step-IsValid {w} v (pools key now) =
      quiet-IsValid w (try_pool now w.pool key).0 v (try_pool-IsQuiet w key now)
  Step-IsValid {w} v (leaves c) =
      quiet-IsValid w (unsubscribe c w.pool) v (set-IsQuiet w c _ refl refl)
  Step-IsValid {w} v (closes key conn found e) = quiet-IsValid w _ v (idle-IsQuiet w _)

  pub Reach-IsValid : {timeout : Option ℕ} {w : World k Client} → Reach timeout w → IsValid w
  Reach-IsValid {timeout} begins = start-IsValid timeout
  Reach-IsValid (goes_on r s) = Step-IsValid (Reach-IsValid r) s

  -- In every state that locks, waiters, connections and drivers can reach from an empty pool, in
  -- any order of their steps, at most one connecting lock of a key is held.
  pub held-le :
      (timeout : Option ℕ) (w : World k Client) (key : k.Key) → Reach timeout w → w.held key ≤ 1
  held-le timeout w key r = entries-le (w.pool.connecting key) ((Reach-IsValid r).locked key)
    where
      entries-le : {n : ℕ} (o : Option ℕ) → n ≡ entries o → n ≤ 1
      entries-le none e = omega arith
      entries-le (some c) e = omega arith
