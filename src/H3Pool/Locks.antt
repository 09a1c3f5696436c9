-- ===== src/H3Pool/Locks.antt =====
-- src/async_impl/h3_client/pool.rs: the invariant of the connecting locks.
use reqwest.Prelude.{
  ℕ, ◌+◌, ◌<◌, ◌≡◌, ◌≢◌, refl, sym, ap, ◌∙◌, true, false, Option, none, some, ◌==◌, ==_iff,
  Bool-cases, inl, inr, arith,
}
use reqwest.H3Pool.{Keys, Channel, Pool, insert_at, remove_at, set_channel, fresh}
use reqwest.H3Pool.Steps.{World, take_lock, give_lock, start}

-- One lock for an entry.
abbrev pub entries : Option ℕ → ℕ
entries none = 0
entries (some c) = 1

kept_entry :
    (k : Keys) (m : k.Key → Option ℕ) (key j : k.Key) (c : ℕ)
    → remove_at k key m j ≡ some c
    → m j ≡ some c
kept_entry k m key j c e = ground arith

module _ {k : Keys} {Client : Type 0} where
  -- The locks that are held are those of the map; each entry has a channel of its own, open and
  -- without a value; and each open channel has an entry.
  pub record IsValid (w : World k Client) : Type 0 where
    pub locked : (key : k.Key) → w.held key ≡ entries (w.pool.connecting key)
    pub bounded : (key : k.Key) (c : ℕ) → w.pool.connecting key ≡ some c → c < w.pool.next_channel
    pub injective :
        (i j : k.Key) (c : ℕ) → w.pool.connecting i ≡ some c → w.pool.connecting j ≡ some c → i ≡ j
    pub opens :
        (key : k.Key) (c : ℕ) → w.pool.connecting key ≡ some c → (w.pool.channels c).is_open ≡ true
    pub open_entry :
        (c : ℕ)
        → (w.pool.channels c).is_open ≡ true
        → (key : k.Key) × (w.pool.connecting key ≡ some c)
    pub silent : (c : ℕ) → (w.pool.channels c).is_open ≡ true → (w.pool.channels c).value ≡ none

  pub start-IsValid : (timeout : Option ℕ) → IsValid (start {k = k} {Client = Client} timeout)
  start-IsValid timeout = record {
    locked = λ key. refl;
    bounded = λ key c e. cc;
    injective = λ i j c e e'. cc;
    opens = λ key c e. cc;
    open_entry = λ c e. cc;
    silent = λ c e. cc;
  }

  -- What removing the entry of a held lock does, whatever becomes of its channel once it is closed.
  unfoldable pub removed : World k Client → k.Key → ℕ → Channel Client → Pool k Client
  removed w key c x = record w.pool {
    connecting = remove_at k key w.pool.connecting;
    channels = set_channel c x w.pool.channels;
  }

  pub removed-IsValid :
      (w : World k Client) (key : k.Key) (c : ℕ) (x : Channel Client)
      → IsValid w
      → w.pool.connecting key ≡ some c
      → x.is_open ≡ false
      → IsValid (record { pool = removed w key c x; held = give_lock k key w.held })
  unfolding removed
  removed-IsValid w key c x v e closed = record {
    locked = λ j. ground (arith, v.locked j, v.locked key, k.same_iff j key);
    bounded = λ j d e'. ground (arith, v.bounded j d, k.same_iff j key);
    injective = λ i j d p q.
        v.injective i j d (kept_entry k w.pool.connecting key i d p)
          (kept_entry k w.pool.connecting key j d q);
    opens = λ j d e'. ground (
      arith,
      v.opens j d (kept_entry k w.pool.connecting key j d e'),
      v.injective j key d (kept_entry k w.pool.connecting key j d e'),
      ==_iff d c,
      k.same_iff j key,
    );
    open_entry = λ d o.
        let other : c ≢ d = λ same. ground (arith, ==_iff d c) in
        let open_before : (w.pool.channels d).is_open ≡ true = ground (arith, ==_iff d c) in
        let (j, found) = v.open_entry d open_before in (j, ground (arith, k.same_iff j key));
    silent = λ d o. ground (arith, v.silent d, ==_iff d c);
  }

  unfoldable pub opened : World k Client → k.Key → Pool k Client
  opened w key = record w.pool {
    connecting = insert_at k key w.pool.next_channel w.pool.connecting;
    channels = set_channel w.pool.next_channel fresh w.pool.channels;
    next_channel = w.pool.next_channel + 1;
  }

  pub opened-IsValid :
      (w : World k Client) (key : k.Key)
      → IsValid w
      → w.pool.connecting key ≡ none
      → IsValid (record { pool = opened w key; held = take_lock k key w.held })
  unfolding opened
  opened-IsValid w key v e = record {
    locked = λ j. ground (arith, v.locked j, v.locked key, k.same_iff j key);
    bounded = λ j d e'. ground (arith, v.bounded j d, k.same_iff j key);
    injective = λ i j d p q. ground (
      arith,
      v.injective i j d,
      v.bounded i d,
      v.bounded j d,
      k.same_iff i key,
      k.same_iff j key,
    );
    opens = λ j d e'.
        ground (arith, v.opens j d, v.bounded j d, ==_iff d w.pool.next_channel, k.same_iff j key);
    open_entry = λ d o. elim (Bool-cases (d == w.pool.next_channel)) [
      | inl same ↦ (key, ground (arith, ==_iff d w.pool.next_channel, k.same_iff key key))
      | inr other ↦
          let (j, found) = v.open_entry d (rw other at o) in (j, ground (arith, k.same_iff j key))
    ];
    silent = λ d o. ground (arith, v.silent d, ==_iff d w.pool.next_channel);
  }

  -- A step that leaves locks and entries alone, and of each channel whether it is open and its value.
  unfoldable pub IsQuiet : World k Client → Pool k Client → Type 0
  IsQuiet w pool =
      (pool.connecting ≡ w.pool.connecting)
      × (pool.next_channel ≡ w.pool.next_channel)
      × ((c : ℕ) → (pool.channels c).is_open ≡ (w.pool.channels c).is_open)
      × ((c : ℕ) → (pool.channels c).value ≡ (w.pool.channels c).value)

  pub quiet-IsValid :
      (w : World k Client) (pool : Pool k Client)
      → IsValid w
      → IsQuiet w pool
      → IsValid (record { pool = pool; held = w.held })
  unfolding IsQuiet
  quiet-IsValid w pool v (same, next, open_same, value_same) = record {
    locked = λ key. v.locked key ∙ ap (λ m. entries (m key)) (sym same);
    bounded = λ key c e. rw next (v.bounded key c (ap (λ m. m key) (sym same) ∙ e));
    injective = λ i j c p q.
        v.injective i j c (ap (λ m. m i) (sym same) ∙ p) (ap (λ m. m j) (sym same) ∙ q);
    opens = λ key c e. open_same c ∙ v.opens key c (ap (λ m. m key) (sym same) ∙ e);
    open_entry = λ c o.
        let (key, found) = v.open_entry c (sym (open_same c) ∙ o) in
        (key, ap (λ m. m key) same ∙ found);
    silent = λ c o. value_same c ∙ v.silent c (sym (open_same c) ∙ o);
  }
