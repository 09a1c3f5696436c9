-- ===== src/H3Pool.antt =====
-- src/async_impl/h3_client/pool.rs: the pool of HTTP/3 connections and its connecting locks.
-- The maps are functions. A `watch` channel lies in a store, and its sender in the map
-- `connecting`, so that removing the entry closes the channel.
pub mod Steps
pub mod Locks
pub mod Interleaving
pub mod Waiters
pub mod Idle
pub mod Refinement
mod Tests
use reqwest.Prelude.{
  ℕ, ◌+◌, ◌-◌, ◌≡◌, ◌↔◌, Bool, true, false, not, Option, none, some, ltb, ◌==◌, if◌then◌else◌,
}

-- `(Scheme, Authority)`, with its equality.
pub record Keys : Type 1 where
  pub Key : Type 0
  pub same : Key → Key → Bool
  pub same_iff : (j k : Key) → (same j k ≡ true) ↔ (j ≡ k)

-- What `close_rx.try_recv()` would find: `Empty`, an error of the driver, or `Disconnected`.
pub data CloseRx : Type 0 where
  quiet error disconnected : CloseRx

pub record PoolConnection (Client : Type 0) : Type 0 where
  pub close_rx : CloseRx
  pub client : Client
  pub idle_timeout : ℕ

-- `tokio::sync::watch`: the value, whether the sender lives, and the number of receivers.
pub record Channel (Client : Type 0) : Type 0 where
  pub value : Option Client
  pub is_open : Bool
  pub receivers : ℕ

pub record Pool (k : Keys) (Client : Type 0) : Type 0 where
  pub connecting : k.Key → Option ℕ
  pub idle_conns : k.Key → Option (PoolConnection Client)
  pub timeout : Option ℕ
  pub channels : ℕ → Channel Client
  pub next_channel : ℕ

-- `ConnectingLock`: empty once it is forgotten.
abbrev pub ConnectingLock : Keys → Type 0
ConnectingLock k = Option k.Key

pub data Connecting (k : Keys) : Type 0 where
  in_progress : ℕ → Connecting k
  acquired : ConnectingLock k → Connecting k

abbrev pub is_invalid : CloseRx → Bool
is_invalid quiet = false
is_invalid _ = true

-- `Instant::now().saturating_duration_since(conn.idle_timeout) > duration`.
abbrev pub is_expired : Option ℕ → ℕ → ℕ → Bool
is_expired none now since = false
is_expired (some duration) now since = ltb duration (now - since)

module _ (k : Keys) where
  -- `HashMap::insert` and `HashMap::remove`.
  abbrev pub insert_at {ℓ} : {V : Type ℓ} → k.Key → V → (k.Key → Option V) → k.Key → Option V
  insert_at key v m j = if k.same j key then some v else m j

  abbrev pub remove_at {ℓ} : {V : Type ℓ} → k.Key → (k.Key → Option V) → k.Key → Option V
  remove_at key m j = if k.same j key then none else m j

module _ {Client : Type 0} where
  abbrev pub set_channel : ℕ → Channel Client → (ℕ → Channel Client) → ℕ → Channel Client
  set_channel c x m d = if d == c then x else m d

  abbrev pub fresh : Channel Client
  fresh = record { value = none; is_open = true; receivers = 0 }

  -- The sender is dropped.
  abbrev pub close : Channel Client → Channel Client
  close x = record x { is_open = false }

  -- `Sender::send` fails without receivers, and leaves the value alone.
  abbrev pub send : Client → Channel Client → Channel Client
  send client x = if x.receivers == 0 then x else record x { value = some client }

  abbrev pub subscribe : Channel Client → Channel Client
  subscribe x = record x { receivers = x.receivers + 1 }

  abbrev pub new_conn : ℕ → Client → PoolConnection Client
  new_conn now client = record { close_rx = quiet; client = client; idle_timeout = now }

module _ {k : Keys} {Client : Type 0} where
  abbrev pub new : Option ℕ → Pool k Client
  new timeout = record {
    connecting = λ key. none;
    idle_conns = λ key. none;
    timeout = timeout;
    channels = λ c. close fresh;
    next_channel = 0;
  }

  -- `Pool::connecting`.
  unfoldable pub connecting : Pool k Client → k.Key → Pool k Client × Connecting k
  connecting pool key = elim (pool.connecting key) [
    | some c ↦ (
      record pool { channels = set_channel c (subscribe (pool.channels c)) pool.channels },
      in_progress c,
    )
    | none ↦ (
      record pool {
        connecting = insert_at k key pool.next_channel pool.connecting;
        channels = set_channel pool.next_channel fresh pool.channels;
        next_channel = pool.next_channel + 1;
      },
      acquired (some key),
    )
  ]

  -- `Drop for ConnectingLock`.
  unfoldable pub drop_lock : Pool k Client → ConnectingLock k → Pool k Client
  drop_lock pool none = pool
  drop_lock pool (some key) = elim (pool.connecting key) [
    | none ↦ pool
    | some c ↦ record pool {
      connecting = remove_at k key pool.connecting;
      channels = set_channel c (close (pool.channels c)) pool.channels;
    }
  ]

  -- `Pool::new_connection`; `none` is a panic, of `forget` or of `unreachable!`.
  pub new_connection :
      ℕ → Pool k Client → ConnectingLock k → Client → Option (Pool k Client × Client)
  new_connection now pool none client = none
  new_connection now pool (some key) client = elim (pool.connecting key) [
    | none ↦ none
    | some c ↦ some (
      record pool {
        connecting = remove_at k key pool.connecting;
        idle_conns = insert_at k key (new_conn now client) pool.idle_conns;
        channels = set_channel c (close (send client (pool.channels c))) pool.channels;
      },
      client,
    )
  ]

  -- `Pool::try_pool`.
  pub try_pool : ℕ → Pool k Client → k.Key → Pool k Client × Option Client
  try_pool now pool key = elim (pool.idle_conns key) [
    | none ↦ (pool, none)
    | some conn ↦
        if is_invalid conn.close_rx
        then (record pool { idle_conns = remove_at k key pool.idle_conns }, none)
        else if is_expired pool.timeout now conn.idle_timeout
        then (record pool { idle_conns = remove_at k key pool.idle_conns }, none)
        else (
          record pool {
            idle_conns = insert_at k key (record conn { idle_timeout = now }) pool.idle_conns;
          },
          some conn.client,
        )
  ]

  -- `ConnectingWaiter::receive`: `none` while it waits.
  pub receive : Pool k Client → ℕ → Option (Option Client)
  receive pool c = elim (pool.channels c).value [
    | some client ↦ some (some client)
    | none ↦ if (pool.channels c).is_open then none else some none
  ]
