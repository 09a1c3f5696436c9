-- ===== src/H3Pool/Refinement.antt =====
-- src/async_impl/h3_client/pool.rs: what the pool promises, without channels and locks' counts.
use mathlib.Core.Option
use mathlib.Core.Path.{subst}
use reqwest.Prelude.{
  ℕ, ◌-◌, ◌≡◌, refl, ap, ◌∙◌, Bool, true, false, Option, none, some, List, [], ◌∷◌, ltb,
  if◌then◌else◌, Bool-cases, Option-cases, inl, inr, arith,
}
use reqwest.H3Pool.{
  Keys, Pool, in_progress, is_invalid, is_expired, connecting, drop_lock, new_connection, try_pool,
}
use reqwest.H3Pool.Steps.{
  World, Step, locks, waits, drops, connects, pools, leaves, closes, take_lock, give_lock, Reach,
  begins, goes_on,
}
use reqwest.H3Pool.Locks.{entries, IsValid, opened}
use reqwest.H3Pool.Interleaving.{connecting-acquired, held_entry, connected, Reach-IsValid}

-- For each key, whether somebody connects to it, and the client that requests are given.
pub record Spec (k : Keys) (Client : Type 0) : Type 0 where
  pub busy : k.Key → Bool
  pub ready : k.Key → Option Client

-- What a user of the pool sees of a step: the answer to `connecting`, a lock that is dropped, the
-- client that a finished connection returns, and the answer to `try_pool`.
pub data Event (k : Keys) (Client : Type 0) : Type 0 where
  acquires : k.Key → Event k Client
  joins : k.Key → Event k Client
  gives_up : k.Key → Event k Client
  publishes : k.Key → Client → Event k Client
  asks : k.Key → Option Client → Event k Client
  unseen : Event k Client

module _ (k : Keys) where
  abbrev pub At {ℓ} : {V : Type ℓ} → k.Key → V → (k.Key → V) → (k.Key → V) → Type ℓ
  At key value old next = (j : k.Key) → next j ≡ (if k.same j key then value else old j)

  abbrev pub Same {ℓ} : {V : Type ℓ} → (k.Key → V) → (k.Key → V) → Type ℓ
  Same old next = (j : k.Key) → next j ≡ old j

-- A key of which no lock is held becomes one of which one is, and back.
taken_busy :
    (k : Keys) (held : k.Key → ℕ) (key : k.Key)
    → At k key true (λ j. ltb 0 (held j)) (λ j. ltb 0 (take_lock k key held j))
taken_busy k held key j = ground arith

one_given : {n : ℕ} (o : Option ℕ) → n ≡ entries o → ltb 0 (n - 1) ≡ false
one_given none e = rw e refl
one_given (some c) e = rw e refl

module _ {k : Keys} {Client : Type 0} where
  abbrev pub nothing : Spec k Client
  nothing = record { busy = λ key. false; ready = λ key. none }

  -- Which events are allowed, and what they change: a lock is acquired only of a key that is not busy,
  -- which it makes busy, and a waiter joins, a lock is given up and a client is published only for a
  -- busy key; a client that is given out is the one that is ready, and where none is given out none is
  -- ready any more.
  pub data Allows (s : Spec k Client) : Event k Client → Spec k Client → Type 0 where
    acquired_free :
        {t : Spec k Client} (key : k.Key)
        → s.busy key ≡ false
        → At k key true s.busy t.busy
        → Same k s.ready t.ready
        → Allows s (acquires key) t
    joined_busy :
        {t : Spec k Client} (key : k.Key)
        → s.busy key ≡ true
        → Same k s.busy t.busy
        → Same k s.ready t.ready
        → Allows s (joins key) t
    given_up :
        {t : Spec k Client} (key : k.Key)
        → s.busy key ≡ true
        → At k key false s.busy t.busy
        → Same k s.ready t.ready
        → Allows s (gives_up key) t
    published :
        {t : Spec k Client} (key : k.Key) (client : Client)
        → s.busy key ≡ true
        → At k key false s.busy t.busy
        → At k key (some client) s.ready t.ready
        → Allows s (publishes key client) t
    given_out :
        {t : Spec k Client} (key : k.Key) (client : Client)
        → s.ready key ≡ some client
        → Same k s.busy t.busy
        → Same k s.ready t.ready
        → Allows s (asks key (some client)) t
    forgotten :
        {t : Spec k Client} (key : k.Key)
        → Same k s.busy t.busy
        → At k key none s.ready t.ready
        → Allows s (asks key none) t
    rests : {t : Spec k Client} → Same k s.busy t.busy → Same k s.ready t.ready → Allows s unseen t

  -- The events from one state to another, the latest first.
  pub data Runs (s : Spec k Client) : List (Event k Client) → Spec k Client → Type 0 where
    done : Runs s [] s
    moved :
        {t t' : Spec k Client} {e : Event k Client} {es : List (Event k Client)}
        → Runs s es t
        → Allows t e t'
        → Runs s (e ∷ es) t'

  -- A key is busy while somebody outside of the pool holds a lock of it.
  abbrev pub view : World k Client → Spec k Client
  view w = record {
    busy = λ key. ltb 0 (w.held key);
    ready = λ key. Option.map (λ conn. conn.client) (w.pool.idle_conns key);
  }

  unfoldable pub event : {w w' : World k Client} → Step w w' → Event k Client
  event (locks key lock pool e) = acquires key
  event (waits key c pool e) = joins key
  event (drops key h) = gives_up key
  event (connects key now client client' pool h e) = publishes key client'
  event {w} (pools key now) = asks key (try_pool now w.pool key).1
  event (leaves c) = unseen
  event (closes key conn found e) = unseen

  unfoldable pub trace :
      {timeout : Option ℕ} {w : World k Client} → Reach timeout w → List (Event k Client)
  unfolding event
  trace begins = []
  trace (goes_on r s) = event s ∷ trace r

  given_busy :
      (w : World k Client) (key : k.Key)
      → IsValid w
      → At k key false (λ j. ltb 0 (w.held j)) (λ j. ltb 0 (give_lock k key w.held j))
  given_busy w key v j = elim (Bool-cases (k.same j key)) [
    | inl same ↦ rw same (one_given (w.pool.connecting j) (v.locked j))
    | inr other ↦ rw other refl
  ]

  asks-Allows :
      (w : World k Client) (key : k.Key) (now : ℕ)
      → Allows
          (view w)
          (asks key (try_pool now w.pool key).1)
          (view (record w { pool = (try_pool now w.pool key).0 }))
  unfolding try_pool
  asks-Allows w key now = elim (Option-cases (w.pool.idle_conns key)) [
    | inl absent ↦
        rw (absent, try_pool) (forgotten key (λ j. refl) (λ j. ground (arith, k.same_iff j key)))
    | inr (conn, found) ↦ elim (Bool-cases (is_invalid conn.close_rx)) [
      | inl bad ↦ rw (found, try_pool, bad) (forgotten key (λ j. refl) (λ j. ground arith))
      | inr good ↦ elim (Bool-cases (is_expired w.pool.timeout now conn.idle_timeout)) [
        | inl old ↦ rw (found, try_pool, good, old) (forgotten key (λ j. refl) (λ j. ground arith))
        | inr young ↦
            rw (found, try_pool, good, young)
              (given_out key conn.client (ap (Option.map (λ c. c.client)) found) (λ j. refl)
                (λ j. ground (arith, k.same_iff j key)))
      ]
    ]
  ]

  joins-Allows :
      (w : World k Client) (key : k.Key) (c : ℕ) (pool : Pool k Client)
      → IsValid w
      → connecting w.pool key ≡ (pool, in_progress c)
      → Allows (view w) (joins key) (view (record w { pool = pool }))
  unfolding connecting
  joins-Allows w key c pool v e = elim (Option-cases (w.pool.connecting key)) [
    | inl absent ↦ cc (rw (absent, connecting) at e)
    | inr (d, found) ↦
        let e' = rw (found, connecting) at e in
        let busy = ap (ltb 0) (v.locked key ∙ ap entries found) in
        subst (λ p. Allows (view w) (joins key) (view (record w { pool = p }))) (ap (λ r. r.0) e')
          (joined_busy key busy (λ j. refl) (λ j. refl))
  ]

  Step-Allows :
      {w w' : World k Client} → IsValid w → (s : Step w w') → Allows (view w) (event s) (view w')
  unfolding event opened connected drop_lock new_connection
  Step-Allows {w} v (locks key lock pool e) =
      let (absent, same, same_key) = connecting-acquired w key lock pool e in
      let free = ap (ltb 0) (v.locked key ∙ ap entries absent) in
      subst
        (λ p.
          Allows (view w) (acquires key)
            (view (record { pool = p; held = take_lock k lock w.held })))
        same
        (subst
          (λ l.
            Allows (view w) (acquires key)
              (view (record { pool = opened w key; held = take_lock k l w.held })))
          same_key (acquired_free key free (taken_busy k w.held key) (λ j. refl)))
  Step-Allows {w} v (waits key c pool e) = joins-Allows w key c pool v e
  Step-Allows {w} v (drops key h) =
      let (c, found) = held_entry w key v h in
      let busy = ap (ltb 0) (v.locked key ∙ ap entries found) in
      rw (found, drop_lock) (given_up key busy (given_busy w key v) (λ j. refl))
  Step-Allows {w} v (connects key now client client' pool h e) =
      let (c, found) = held_entry w key v h in
      let busy = ap (ltb 0) (v.locked key ∙ ap entries found) in
      let e' = rw (found, new_connection) at e in
      let same : connected w key c now client ≡ pool = cc in
      let returned : client ≡ client' = cc in
      subst
        (λ p.
          Allows (view w) (publishes key client')
            (view (record { pool = p; held = give_lock k key w.held })))
        same
        (subst
          (λ x.
            Allows (view w) (publishes key x) (
              view (record { pool = connected w key c now client; held = give_lock k key w.held })))
          returned (published key client busy (given_busy w key v) (λ j. ground arith)))
  Step-Allows {w} v (pools key now) = asks-Allows w key now
  Step-Allows {w} v (leaves c) = rests (λ j. refl) (λ j. refl)
  Step-Allows {w} v (closes key conn close_rx found) =
      rests (λ j. refl) (λ j. ground (arith, k.same_iff j key))

  -- The pool refines its specification step by step: what clients, waiters and drivers see of their
  -- steps from an empty pool, in any order, is a run of the specification to the state that they
  -- leave. So a lock of a key is handed out only while none is held outside of the pool, and a
  -- request joins the waiters, gives the key up or publishes a client only while one is; the client
  -- that a finished connection returns is the one that the pool gives out afterwards, until another is
  -- published or a request is told that there is none.
  pub Reach-Runs :
      (timeout : Option ℕ) (w : World k Client) (r : Reach timeout w)
      → Runs nothing (trace r) (view w)
  unfolding trace
  Reach-Runs timeout w begins = done
  Reach-Runs timeout w (goes_on {w = before} r s) =
      moved (Reach-Runs timeout before r) (Step-Allows (Reach-IsValid r) s)
